-- ===== src/DeviceTree/Seconds.antt =====
-- The second pass over the properties of a node, on the stores.
use octiron.Base.{
  ℕ, zero, suc, ◌<◌, ◌≡◌, ◌≢◌, ◌∙◌, refl, ap, sym, subst, Option, none, some, List, [], ◌∷◌, arith,
  Bool, true, false, Run, done, if◌then◌else◌, ◌==◌, length, inl, inr,
}
use octiron.Number.{Bytes}
use octiron.Number.Endian.{IsBytes}
use octiron.View.{View}
use octiron.Stack.{Ref}
use octiron.DeviceTree.{DeviceTree, Data, Node, Property}
use octiron.DeviceTree.Names.{is_text}
use octiron.DeviceTree.Cells.{property_rewrite_reg, property_rewrite_ranges}
use octiron.DeviceTree.Rewrite.{second_pass}
use octiron.DeviceTree.Grants.{Grants, Grants-less}
use octiron.DeviceTree.Regs.{with_value, pairs_of, rewrite_reg-pairs_of}
use octiron.DeviceTree.Places.{AreDistinct, PropertiesAt, same-PropertiesAt, NotIn-All}
use octiron.DeviceTree.Trips.{AreTrips-size, trips_of, rewrite_ranges-trips_of}
use octiron.DeviceTree.Rewritten.{
  AreTripsOf, with_second, second_requests, ParentCells, IsReg, IsRange, BecomesLater, Seconds,
}
use octiron.DeviceTree.Steps.{Stepped, valued}
use octiron.DeviceTree.Firsts.{Passed, none-Passed, Stepped-Passed}

-- The parent is another node, with these cells.
abbrev pub ParentHas : DeviceTree → (node : Ref) → Option Ref → ParentCells → Type 0
ParentHas d node none none = Unit {0}
ParentHas d node none (some c) = ⊥
ParentHas d node (some r) none = ⊥
ParentHas d node (some r) (some (a, z)) =
    (r ≢ node) × ((d.nodes r).address_cells ≡ a) × ((d.nodes r).size_cells ≡ z)

pub same-ParentHas :
    (d d' : DeviceTree) (node : Ref) (parent : Option Ref) (c : ParentCells)
    → ((q : Ref) → q ≢ node → d'.nodes q ≡ d.nodes q)
    → ParentHas d node parent c
    → ParentHas d' node parent c
same-ParentHas d d' node none none keep h = h
same-ParentHas d d' node none (some c) keep h = h
same-ParentHas d d' node (some r) none keep h = h
same-ParentHas d d' node (some r) (some (a, z)) keep (ne, ea, ez) = (
  ne,
  ap (λ (x : Node). x.address_cells) (keep r ne) ∙ ea,
  ap (λ (x : Node). x.size_cells) (keep r ne) ∙ ez,
)

module _ (hhdm_base text_fuel most : ℕ) (m : Bytes) (bytes : IsBytes m) where
  -- A round of the second pass, and the value that it leaves.
  record Later (k : ℕ) (node r : Ref) (y : Data) (d : DeviceTree) (run : Run DeviceTree)
      : Type 0 where
    pub after : DeviceTree
    pub runs : run ≡ done after
    pub stepped :
        Stepped hhdm_base text_fuel most m k node r y
          (d.nodes node).address_cells
          (d.nodes node).size_cells
          d
          after

  module _ (k : ℕ) (node r : Ref) (parent : Option Ref) (c : ParentCells) (oa oz : ℕ)
      (d : DeviceTree) (up : (d.nodes node).parent ≡ parent) (has : ParentHas d node parent c)
      (own_a : (d.nodes node).address_cells ≡ oa) (own_z : (d.nodes node).size_cells ≡ oz) where
    reg_Later :
        (parent : Option Ref) (c : ParentCells) (x y : Data)
        → (d.nodes node).parent ≡ parent
        → ParentHas d node parent c
        → (d.properties r).value ≡ x
        → IsReg hhdm_base text_fuel most m c x y
        → Grants hhdm_base most (suc (suc k)) d.pmm d.bump
        → Later k node r y d (property_rewrite_reg m hhdm_base node r d)
    unfolding property_rewrite_reg
    reg_Later none none x y u h e is g = absurd is
    reg_Later none (some c) x y u h e is g = absurd h
    reg_Later (some q) none x y u h e is g = absurd h
    reg_Later (some q) (some (a, z)) x y u (ne, ea, ez) e (v, n, raw, pairs, ey) g =
        let (s, b, runs, grants) =
          rewrite_reg-pairs_of m hhdm_base most k a z n v r d bytes pairs (e ∙ raw) g in
        record {
          after = with_value r (pairs_of m a z v n) s b d;
          runs = rw (u, property_rewrite_reg, ea, ez) runs;
          stepped =
              rw ey (valued hhdm_base text_fuel most m k node r (pairs_of m a z v n) s b d grants);
        }

    trips_Later :
        (parent : Option Ref) (c : ParentCells) (v : View) (y : Data)
        → (d.nodes node).parent ≡ parent
        → ParentHas d node parent c
        → (d.properties r).value ≡ Data.raw v
        → AreTripsOf hhdm_base text_fuel most m oa oz c v y
        → Grants hhdm_base most (suc (suc (suc k))) d.pmm d.bump
        → Later k node r y d (property_rewrite_ranges m hhdm_base node r d)
    unfolding property_rewrite_ranges
    trips_Later none none v y u h e is g = absurd is
    trips_Later none (some c) v y u h e is g = absurd h
    trips_Later (some q) none v y u h e is g = absurd h
    trips_Later (some q) (some (a, z)) v y u (ne, ea, ez) e (n, trips, ey) g =
        let (s, b, runs, grants) =
          rewrite_ranges-trips_of m hhdm_base most k oa a oz n v r d bytes trips g in
        let some_there = AreTrips-size most oa a oz v n trips in
        record {
          after = with_value r (trips_of m oa a oz v n) s b d;
          runs = rw (e, some_there, u, property_rewrite_ranges, own_a, ea, own_z) runs;
          stepped =
              rw ey
                (valued hhdm_base text_fuel most m k node r (trips_of m oa a oz v n) s b d grants);
        }

    range_Later :
        (x y : Data)
        → (d.properties r).value ≡ x
        → IsRange hhdm_base text_fuel most m oa oz c x y
        → Grants hhdm_base most (suc (suc (suc k))) d.pmm d.bump
        → Later k node r y d (property_rewrite_ranges m hhdm_base node r d)
    unfolding property_rewrite_ranges
    range_Later x y e (v, raw, inr trips) g = trips_Later parent c v y up has (e ∙ raw) trips g
    range_Later x y e (v, raw, inl (empty, ey)) g =
        let none_there : (v.size == 0) ≡ true = ground (arith, empty) in
        let less = Grants-less hhdm_base most k d.pmm d.bump (
          Grants-less hhdm_base most (suc k) d.pmm d.bump
            (Grants-less hhdm_base most (suc (suc k)) d.pmm d.bump g)) in
        record {
          after = with_value r (Data.ranges 0 [] [] []) d.pmm d.bump d;
          runs = rw (e, raw, none_there) refl;
          stepped = rw ey (
              valued hhdm_base text_fuel most m k node r (Data.ranges 0 [] [] []) d.pmm d.bump d
                less);
        }

    later :
        (b₁ b₂ b₃ : Bool) (x y : Data)
        → (d.properties r).value ≡ x
        → BecomesLater hhdm_base text_fuel most m oa oz c b₁ b₂ b₃ x y
        → Grants hhdm_base most (with_second b₁ b₂ b₃ k) d.pmm d.bump
        → Later k node r y d (
            if b₁
            then property_rewrite_reg m hhdm_base node r d
            else if b₂
            then property_rewrite_ranges m hhdm_base node r d
            else if b₃
            then property_rewrite_ranges m hhdm_base node r d
            else done d)
    later true b₂ b₃ x y e h g = reg_Later parent c x y up has e h g
    later false true b₃ x y e h g = range_Later x y e h g
    later false false true x y e h g = range_Later x y e h g
    later false false false x y e h g = record {
      after = d;
      runs = refl;
      stepped = record {
        here = ap (λ (o : Data). record (d.properties r) { value = o }) (e ∙ sym h);
        others = λ q ne. refl;
        node_here = refl;
        other_nodes = λ q ne. refl;
        same_root = refl;
        grants = g;
      };
    }

  pub record SecondPass (fuel k : ℕ) (node : Ref) (p : Option Ref) (rs : List Ref)
      (ys : List (View × Data)) (d : DeviceTree) : Type 0 where
    pub after : DeviceTree
    pub runs : second_pass hhdm_base text_fuel m fuel node p d ≡ done after
    pub passed :
        Passed hhdm_base text_fuel most m k node p rs ys
          (d.nodes node).address_cells
          (d.nodes node).size_cells
          d
          after

  pub seconds :
      (k fuel : ℕ) (node : Ref) (parent : Option Ref) (c : ParentCells) (p : Option Ref)
      (rs : List Ref) (xs ys : List (View × Data)) (oa oz : ℕ) (d : DeviceTree)
      → length rs < fuel
      → AreDistinct rs
      → (d.nodes node).parent ≡ parent
      → ParentHas d node parent c
      → (d.nodes node).address_cells ≡ oa
      → (d.nodes node).size_cells ≡ oz
      → PropertiesAt d p rs xs
      → Seconds hhdm_base text_fuel most m oa oz c xs ys
      → Grants hhdm_base most (second_requests m xs k) d.pmm d.bump
      → SecondPass fuel k node p rs ys d
  unfolding second_pass
  seconds k zero node parent c p rs xs ys oa oz d l dis up has own_a own_z h f g = elim l [ ]
  seconds k (suc fuel) node parent c p [] [] [] oa oz d l dis up has own_a own_z h f g = record {
    after = d;
    runs = rw h refl;
    passed =
        none-Passed hhdm_base text_fuel most m k node p (d.nodes node).address_cells
          (d.nodes node).size_cells d h refl refl g;
  }
  seconds k (suc fuel) node parent c p [] [] (y ∷ ys) oa oz d l dis up has own_a own_z h f g =
      absurd f
  seconds k (suc fuel) node parent c p [] (x ∷ xs) ys oa oz d l dis up has own_a own_z h f g =
      absurd h
  seconds k (suc fuel) node parent c p (r ∷ rs) [] ys oa oz d l dis up has own_a own_z h f g =
      absurd h
  seconds k (suc fuel) node parent c p (r ∷ rs) (x ∷ xs) [] oa oz d l dis up has own_a own_z h f g =
      absurd f
  seconds k (suc fuel) node parent c p (r ∷ rs) ((name, value) ∷ xs) ((name', value') ∷ ys) oa oz d
        l (new, dis) up has own_a own_z (q, n, e, h) (en, becomes, f) g =
      let left = second_requests m xs k in
      let one =
        later left node r parent c oa oz d up has own_a own_z (is_text "reg" name m)
          (is_text "ranges" name m) (is_text "bus-ranges" name m) value value' e becomes g in
      let s = one.stepped in
      let more : SecondPass fuel k node (d.properties r).next_property rs ys one.after =
        seconds k fuel node parent c (d.properties r).next_property rs xs ys oa oz one.after
          (omega (arith, l)) dis (ap (λ (o : Node). o.parent) s.node_here ∙ up)
          (same-ParentHas d one.after node parent c s.other_nodes has)
          (ap (λ (o : Node). o.address_cells) s.node_here ∙ own_a)
          (ap (λ (o : Node). o.size_cells) s.node_here ∙ own_z)
          (same-PropertiesAt d one.after (d.properties r).next_property rs xs
            (NotIn-All r rs new s.others) h)
          f s.grants in
      let passed : Passed hhdm_base text_fuel most m k node (d.properties r).next_property rs ys
          (d.nodes node).address_cells (d.nodes node).size_cells one.after more.after =
        subst
          (λ (o : Node).
            Passed hhdm_base text_fuel most m k node (d.properties r).next_property rs ys
              o.address_cells o.size_cells one.after more.after)
          s.node_here more.passed in
      record {
        after = more.after;
        runs = rw (q, n, one.runs, ap (λ (y : Property). y.next_property) s.here) more.runs;
        passed =
            Stepped-Passed hhdm_base text_fuel most m k left node r p rs name' value' ys
              (d.nodes node).address_cells (d.nodes node).size_cells (d.nodes node).address_cells
              (d.nodes node).size_cells d one.after more.after q (n ∙ sym en) new s passed;
      }
