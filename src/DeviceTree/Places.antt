-- ===== src/DeviceTree/Places.antt =====
-- Trees in the stores with the places of their nodes and properties, and what a change elsewhere leaves.
use octiron.Base.{
  ◌≡◌, ◌≢◌, ◌∙◌, refl, ap, sym, Option, none, some, List, [], ◌∷◌, ◌++◌, All, arith, true,
  Bool-cases, inl, inr,
}
use octiron.View.{View}
use octiron.Stack.{Ref, put, same}
use octiron.DeviceTree.{DeviceTree, Data, Node, Property}
use octiron.DeviceTree.Layout.{Forest}

-- The places of a list of trees: each with the place of its node, those of its properties, and those
-- of its children.
pub data Places : Type 0 where
  nil : Places
  at : (place : Ref) → (properties : List Ref) → (children rest : Places) → Places

abbrev pub node_places : Places → List Ref
node_places Places.nil = []
node_places (Places.at r rs inner rest) = r ∷ (node_places inner ++ node_places rest)

abbrev pub property_places : Places → List Ref
property_places Places.nil = []
property_places (Places.at r rs inner rest) = rs ++ (property_places inner ++ property_places rest)

abbrev pub NotIn : Ref → List Ref → Type 0
NotIn q [] = Unit {0}
NotIn q (r ∷ rs) = (q ≢ r) × NotIn q rs

abbrev pub Apart : List Ref → List Ref → Type 0
Apart rs qs = All (λ r. NotIn r qs) rs

abbrev pub AreDistinct : List Ref → Type 0
AreDistinct [] = Unit {0}
AreDistinct (r ∷ rs) = NotIn r rs × AreDistinct rs

-- Parts of a list.
pub NotIn-append : (q : Ref) (rs qs : List Ref) → NotIn q (rs ++ qs) → NotIn q rs × NotIn q qs
NotIn-append q [] qs h = (tt, h)
NotIn-append q (r ∷ rs) qs (ne, h) = let (a, b) = NotIn-append q rs qs h in ((ne, a), b)

pub append-NotIn : (q : Ref) (rs qs : List Ref) → NotIn q rs → NotIn q qs → NotIn q (rs ++ qs)
append-NotIn q [] qs a b = b
append-NotIn q (r ∷ rs) qs (ne, a) b = (ne, append-NotIn q rs qs a b)

pub AreDistinct-append :
    (rs qs : List Ref) → AreDistinct (rs ++ qs) → AreDistinct rs × AreDistinct qs × Apart rs qs
AreDistinct-append [] qs h = (tt, h, tt)
AreDistinct-append (r ∷ rs) qs (new, h) =
    let (a, b, apart) = AreDistinct-append rs qs h in
    let (new_rs, new_qs) = NotIn-append r rs qs new in ((new_rs, a), b, (new_qs, apart))

-- The elements of a list that stays apart are those that a change does not reach.
pub Apart-All :
    {P : Ref → Type 0} (rs qs : List Ref) → Apart rs qs → ((r : Ref) → NotIn r qs → P r) → All P rs
Apart-All [] qs h keep = tt
Apart-All (r ∷ rs) qs (new, h) keep = (keep r new, Apart-All rs qs h keep)

pub append-Apart : (rs qs os : List Ref) → Apart rs os → Apart qs os → Apart (rs ++ qs) os
append-Apart [] qs os a b = b
append-Apart (r ∷ rs) qs os (new, a) b = (new, append-Apart rs qs os a b)

pub Apart-append : (rs qs os : List Ref) → Apart rs (qs ++ os) → Apart rs qs × Apart rs os
Apart-append [] qs os h = (tt, tt)
Apart-append (r ∷ rs) qs os (new, h) =
    let (a, b) = Apart-append rs qs os h in
    let (new_qs, new_os) = NotIn-append r qs os new in ((new_qs, a), (new_os, b))

pub refl-All : {P : Ref → Type 0} (rs : List Ref) → ((q : Ref) → P q) → All P rs
refl-All [] keep = tt
refl-All (r ∷ rs) keep = (keep r, refl-All rs keep)

pub NotIn-All :
    {P : Ref → Type 0} (r : Ref) (rs : List Ref) → NotIn r rs → ((q : Ref) → q ≢ r → P q) → All P rs
NotIn-All r [] h keep = tt
NotIn-All r (q ∷ qs) (ne, h) keep = (keep q (λ e. ne (sym e)), NotIn-All r qs h keep)

pub Apart-sym : (rs qs : List Ref) → Apart rs qs → Apart qs rs
Apart-sym rs [] h = tt
Apart-sym rs (q ∷ qs) h = (first rs h, Apart-sym rs qs (others rs h))
  where
    first : (rs : List Ref) → Apart rs (q ∷ qs) → NotIn q rs
    first [] h = tt
    first (r ∷ rs) ((ne, new), h) = (λ e. ne (sym e), first rs h)

    others : (rs : List Ref) → Apart rs (q ∷ qs) → Apart rs qs
    others [] h = tt
    others (r ∷ rs) ((ne, new), h) = (new, others rs h)

-- A store at another place.
pub put_apart {ℓ} : {A : Type ℓ} (f : Ref → A) (r q : Ref) (x : A) → q ≢ r → put f r x q ≡ f q
put_apart f r q x ne = elim (Bool-cases (same r q)) [
  | inl e ↦ absurd (ne (equal r q e))
  | inr e ↦ rw e refl
]
  where
    equal : (r q : Ref) → same r q ≡ true → q ≡ r
    equal r q e = ground (arith, e)

-- The list of properties from a pointer on, at these places.
abbrev pub PropertiesAt : DeviceTree → Option Ref → List Ref → List (View × Data) → Type 0
PropertiesAt d p [] [] = p ≡ none
PropertiesAt d p [] ((name, value) ∷ ps) = ⊥
PropertiesAt d p (r ∷ rs) [] = ⊥
PropertiesAt d p (r ∷ rs) ((name, value) ∷ ps) =
    (p ≡ some r)
    × ((d.properties r).name ≡ name)
    × ((d.properties r).value ≡ value)
    × PropertiesAt d (d.properties r).next_property rs ps

-- The list of siblings from a pointer on, at these places.
abbrev pub TreesAt : DeviceTree → (parent : Option Ref) → Option Ref → Places → Forest → Type 0
TreesAt d parent p Places.nil Forest.nil = p ≡ none
TreesAt d parent p Places.nil (Forest.tree name address_cells size_cells ps ts rest) = ⊥
TreesAt d parent p (Places.at r rs inner more) Forest.nil = ⊥
TreesAt d parent p (Places.at r rs inner more)
      (Forest.tree name address_cells size_cells ps ts rest) =
    (p ≡ some r)
    × ((d.nodes r).name ≡ name)
    × ((d.nodes r).parent ≡ parent)
    × ((d.nodes r).address_cells ≡ address_cells)
    × ((d.nodes r).size_cells ≡ size_cells)
    × PropertiesAt d (d.nodes r).properties rs ps
    × TreesAt d (some r) (d.nodes r).children inner ts
    × TreesAt d parent (d.nodes r).next_sibling more rest

abbrev pub SameProperties : (d d' : DeviceTree) → Ref → Type 0
SameProperties d d' r = d'.properties r ≡ d.properties r

abbrev pub SameNodes : (d d' : DeviceTree) → Ref → Type 0
SameNodes d d' r = d'.nodes r ≡ d.nodes r

pub same-PropertiesAt :
    (d d' : DeviceTree) (p : Option Ref) (rs : List Ref) (ps : List (View × Data))
    → All (SameProperties d d') rs
    → PropertiesAt d p rs ps
    → PropertiesAt d' p rs ps
same-PropertiesAt d d' p [] [] same h = h
same-PropertiesAt d d' p [] (x ∷ ps) same h = absurd h
same-PropertiesAt d d' p (r ∷ rs) [] same h = absurd h
same-PropertiesAt d d' p (r ∷ rs) ((name, value) ∷ ps) (e, same) (q, n, v, h) = (
  q,
  ap (λ (x : Property). x.name) e ∙ n,
  ap (λ (x : Property). x.value) e ∙ v,
  rw e (same-PropertiesAt d d' (d.properties r).next_property rs ps same h),
)

All-append : (P : Ref → Type 0) (rs qs : List Ref) → All P (rs ++ qs) → All P rs × All P qs
All-append P [] qs h = (tt, h)
All-append P (r ∷ rs) qs (p, h) = let (a, b) = All-append P rs qs h in ((p, a), b)

pub same-TreesAt :
    (d d' : DeviceTree) (parent p : Option Ref) (places : Places) (ts : Forest)
    → All (SameNodes d d') (node_places places)
    → All (SameProperties d d') (property_places places)
    → TreesAt d parent p places ts
    → TreesAt d' parent p places ts
same-TreesAt d d' parent p Places.nil Forest.nil nodes props h = h
same-TreesAt d d' parent p Places.nil (Forest.tree name a z ps ts rest) nodes props h = absurd h
same-TreesAt d d' parent p (Places.at r rs inner more) Forest.nil nodes props h = absurd h
same-TreesAt d d' parent p (Places.at r rs inner more) (Forest.tree name a z ps ts rest) (e, nodes)
      props (q, n, up, ea, ez, own, children, siblings) =
    let (nodes_inner, nodes_more) =
      All-append (SameNodes d d') (node_places inner) (node_places more) nodes in
    let (props_own, props_rest) =
      All-append (SameProperties d d') rs (property_places inner ++ property_places more) props in
    let (props_inner, props_more) =
      All-append (SameProperties d d') (property_places inner) (property_places more) props_rest in
    (
      q,
      ap (λ (x : Node). x.name) e ∙ n,
      ap (λ (x : Node). x.parent) e ∙ up,
      ap (λ (x : Node). x.address_cells) e ∙ ea,
      ap (λ (x : Node). x.size_cells) e ∙ ez,
      rw e (same-PropertiesAt d d' (d.nodes r).properties rs ps props_own own),
      rw e (
          same-TreesAt d d' (some r) (d.nodes r).children inner ts nodes_inner props_inner
            children),
      rw e (
          same-TreesAt d d' parent (d.nodes r).next_sibling more rest nodes_more props_more
            siblings),
    )
