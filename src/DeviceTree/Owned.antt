-- ===== src/DeviceTree/Owned.antt =====
-- The places of what a node owns while it is open: its properties, and the trees inside it.
use octiron.Base.{ℕ, ◌≤◌, ◌<◌, ap, some, List, [], ◌∷◌, ◌++◌, All, arith}
use octiron.View.{View}
use octiron.Stack.{Ref}
use octiron.DeviceTree.{DeviceTree, Data}
use octiron.DeviceTree.Layout.{Forest}
use octiron.DeviceTree.Places.{
  Places, node_places, property_places, NotIn, Apart, Apart-sym, AreDistinct, append-NotIn,
  NotIn-append, PropertiesAt, TreesAt,
}

-- A place in a buffer below `low`, between two indices.
abbrev pub IsWithin : (low from to : ℕ) → Ref → Type 0
IsWithin low from to r = (r.buffer < low) × (from ≤ r.index) × (r.index < to)

-- All places are distinct, with indices from the given ones on.
pub record Owns (d : DeviceTree) (c : Ref) (low from_node from_property : ℕ) (rs : List Ref)
    (ps : List (View × Data)) (inner : Places) (ts : Forest) : Type 0 where
  pub node_start : from_node ≤ d.node_stack.size
  pub property_start : from_property ≤ d.property_stack.size
  pub own : PropertiesAt d (d.nodes c).properties rs ps
  pub children : TreesAt d (some c) (d.nodes c).children inner ts
  pub distinct_properties : AreDistinct (rs ++ property_places inner)
  pub distinct_nodes : AreDistinct (node_places inner)
  pub properties_within :
      All (IsWithin low from_property d.property_stack.size) (rs ++ property_places inner)
  pub nodes_within : All (IsWithin low from_node d.node_stack.size) (node_places inner)

pub map-All : (P Q : Ref → Type 0) (rs : List Ref) → ((r : Ref) → P r → Q r) → All P rs → All Q rs
map-All P Q [] f h = tt
map-All P Q (r ∷ rs) f (p, h) = (f r p, map-All P Q rs f h)

pub append-All : (P : Ref → Type 0) (rs qs : List Ref) → All P rs → All P qs → All P (rs ++ qs)
append-All P [] qs h k = k
append-All P (r ∷ rs) qs (p, h) k = (p, append-All P rs qs h k)

pub All-parts : (P : Ref → Type 0) (rs qs : List Ref) → All P (rs ++ qs) → All P rs × All P qs
All-parts P [] qs h = (tt, h)
All-parts P (r ∷ rs) qs (p, h) = let (a, b) = All-parts P rs qs h in ((p, a), b)

pub widen :
    (low low' from to to' : ℕ) (rs : List Ref)
    → low ≤ low'
    → to ≤ to'
    → All (IsWithin low from to) rs
    → All (IsWithin low' from to') rs
widen low low' from to to' rs l t h =
    map-All (IsWithin low from to) (IsWithin low' from to') rs (λ r k. omega (arith, l, t, k)) h

-- A place behind or in front of others.
pub behind-NotIn :
    (low from to : ℕ) (q : Ref) (rs : List Ref)
    → to ≤ q.index
    → All (IsWithin low from to) rs
    → NotIn q rs
behind-NotIn low from to q [] l h = tt
behind-NotIn low from to q (r ∷ rs) l ((b, f, t), h) =
    (λ e. omega (arith, ap (λ (x : Ref). x.index) e, l, t), behind-NotIn low from to q rs l h)

pub before-NotIn :
    (low from to : ℕ) (q : Ref) (rs : List Ref)
    → q.index < from
    → All (IsWithin low from to) rs
    → NotIn q rs
before-NotIn low from to q [] l h = tt
before-NotIn low from to q (r ∷ rs) l ((b, f, t), h) =
    (λ e. omega (arith, ap (λ (x : Ref). x.index) e, l, f), before-NotIn low from to q rs l h)

-- New places between old ones.
within-Apart :
    (low from mid to low' : ℕ) (rs qs : List Ref)
    → All (IsWithin low from mid) rs
    → All (IsWithin low' mid to) qs
    → Apart rs qs
within-Apart low from mid to low' [] qs h k = tt
within-Apart low from mid to low' (r ∷ rs) qs ((b, f, t), h) k =
    (before-NotIn low' mid to r qs t k, within-Apart low from mid to low' rs qs h k)

pub append-AreDistinct :
    (rs qs : List Ref) → AreDistinct rs → AreDistinct qs → Apart rs qs → AreDistinct (rs ++ qs)
append-AreDistinct [] qs a b apart = b
append-AreDistinct (r ∷ rs) qs (new, a) b (out, apart) =
    (append-NotIn r rs qs new out, append-AreDistinct rs qs a b apart)

pub distinct_within :
    (low from mid to low' : ℕ) (rs qs : List Ref)
    → AreDistinct rs
    → AreDistinct qs
    → All (IsWithin low from mid) rs
    → All (IsWithin low' mid to) qs
    → AreDistinct (qs ++ rs)
distinct_within low from mid to low' rs qs a b h k =
    append-AreDistinct qs rs b a (Apart-sym rs qs (within-Apart low from mid to low' rs qs h k))

pub insert-AreDistinct :
    (low from mid to low' : ℕ) (rs ns qs : List Ref)
    → AreDistinct (rs ++ qs)
    → AreDistinct ns
    → All (IsWithin low from mid) (rs ++ qs)
    → All (IsWithin low' mid to) ns
    → AreDistinct (rs ++ (ns ++ qs))
insert-AreDistinct low from mid to low' [] ns qs a b h k =
    distinct_within low from mid to low' qs ns a b h k
insert-AreDistinct low from mid to low' (r ∷ rs) ns qs (new, a) b ((x, y, z), h) k =
    let (new_rs, new_qs) = NotIn-append r rs qs new in
    (
      append-NotIn r rs (ns ++ qs) new_rs
          (append-NotIn r ns qs (before-NotIn low' mid to r ns z k) new_qs),
      insert-AreDistinct low from mid to low' rs ns qs a b h k,
    )

pub insert-All :
    (P : Ref → Type 0) (rs ns qs : List Ref)
    → All P (rs ++ qs)
    → All P ns
    → All P (rs ++ (ns ++ qs))
insert-All P rs ns qs h k =
    let (a, b) = All-parts P rs qs h in append-All P rs (ns ++ qs) a (append-All P ns qs k b)
