-- ===== src/DeviceTree/Firsts.antt =====
-- The first pass over the properties of a node, on the stores.
use octiron.Base.{
  ℕ, zero, suc, ◌<◌, ◌≡◌, ◌≢◌, ◌∙◌, refl, ap, sym, subst, Option, none, some, List, [], ◌∷◌, arith,
  done, length,
}
use octiron.Number.{Bytes}
use octiron.View.{View}
use octiron.Stack.{Ref}
use octiron.DeviceTree.{DeviceTree, Data, Node, Property}
use octiron.DeviceTree.Names.{kind_of}
use octiron.DeviceTree.Rewrite.{first_pass}
use octiron.DeviceTree.Grants.{Grants}
use octiron.DeviceTree.Places.{NotIn, AreDistinct, PropertiesAt, same-PropertiesAt, NotIn-All}
use octiron.DeviceTree.Rewritten.{first_requests, address_after, size_after, Firsts}
use octiron.DeviceTree.Steps.{with_cells, Stepped, Step, step}

module _ (hhdm_base text_fuel most : ℕ) (m : Bytes) where
  -- The properties of a node have new values, the node has these cells, and all else is as it was.
  pub record Passed (k : ℕ) (node : Ref) (p : Option Ref) (rs : List Ref) (ys : List (View × Data))
      (a z : ℕ) (d d' : DeviceTree) : Type 0 where
    pub values : PropertiesAt d' p rs ys
    pub others : (q : Ref) → NotIn q rs → d'.properties q ≡ d.properties q
    pub node_here : d'.nodes node ≡ with_cells a z (d.nodes node)
    pub other_nodes : (q : Ref) → q ≢ node → d'.nodes q ≡ d.nodes q
    pub same_root : d'.root ≡ d.root
    pub grants : Grants hhdm_base most k d'.pmm d'.bump

  pub none-Passed :
      (k : ℕ) (node : Ref) (p : Option Ref) (a z : ℕ) (d : DeviceTree)
      → p ≡ none
      → a ≡ (d.nodes node).address_cells
      → z ≡ (d.nodes node).size_cells
      → Grants hhdm_base most k d.pmm d.bump
      → Passed k node p [] [] a z d d
  none-Passed k node p a z d end ea ez g = record {
    values = end;
    others = λ q new. refl;
    node_here = sym (λ i. with_cells (ea i) (ez i) (d.nodes node));
    other_nodes = λ q ne. refl;
    same_root = refl;
    grants = g;
  }

  -- One property and then the others.
  pub Stepped-Passed :
      (k k' : ℕ) (node r : Ref) (p : Option Ref) (rs : List Ref) (name : View) (x : Data)
      (ys : List (View × Data)) (a z a' z' : ℕ) (d d₁ d' : DeviceTree)
      → p ≡ some r
      → (d.properties r).name ≡ name
      → NotIn r rs
      → Stepped hhdm_base text_fuel most m k' node r x a z d d₁
      → Passed k node (d.properties r).next_property rs ys a' z' d₁ d'
      → Passed k node p (r ∷ rs) ((name, x) ∷ ys) a' z' d d'
  Stepped-Passed k k' node r p rs name x ys a z a' z' d d₁ d' q n new st more =
      let here : d'.properties r ≡ record (d.properties r) { value = x } =
        more.others r new ∙ st.here in
      record {
        values = (
          q,
          ap (λ (y : Property). y.name) here ∙ n,
          ap (λ (y : Property). y.value) here,
          subst (λ o. PropertiesAt d' o rs ys) (sym (ap (λ (y : Property). y.next_property) here))
              more.values,
        );
        others = λ o (ne, absent). more.others o absent ∙ st.others o ne;
        node_here = more.node_here ∙ ap (with_cells a' z') st.node_here;
        other_nodes = λ o ne. more.other_nodes o ne ∙ st.other_nodes o ne;
        same_root = more.same_root ∙ st.same_root;
        grants = more.grants;
      }

  pub record FirstPass (fuel k : ℕ) (node : Ref) (p : Option Ref) (rs : List Ref)
      (ys : List (View × Data)) (a z : ℕ) (d : DeviceTree) : Type 0 where
    pub after : DeviceTree
    pub runs : first_pass hhdm_base text_fuel m fuel node p d ≡ done (none, after)
    pub passed : Passed k node p rs ys a z d after

  pub firsts :
      (k fuel : ℕ) (node : Ref) (p : Option Ref) (rs : List Ref) (xs ys : List (View × Data))
      (a z a' z' : ℕ) (d : DeviceTree)
      → length rs < fuel
      → AreDistinct rs
      → (d.nodes node).address_cells ≡ a
      → (d.nodes node).size_cells ≡ z
      → PropertiesAt d p rs xs
      → Firsts hhdm_base text_fuel most m a z xs ys a' z'
      → Grants hhdm_base most (first_requests m xs k) d.pmm d.bump
      → FirstPass fuel k node p rs ys a' z' d
  unfolding first_pass
  firsts k zero node p rs xs ys a z a' z' d l dis ea ez h f g = elim l [ ]
  firsts k (suc fuel) node p [] [] [] a z a' z' d l dis ea ez h (fa, fz) g = record {
    after = d;
    runs = rw h refl;
    passed = none-Passed k node p a' z' d h (fa ∙ sym ea) (fz ∙ sym ez) g;
  }
  firsts k (suc fuel) node p [] [] (y ∷ ys) a z a' z' d l dis ea ez h f g = absurd f
  firsts k (suc fuel) node p [] (x ∷ xs) ys a z a' z' d l dis ea ez h f g = absurd h
  firsts k (suc fuel) node p (r ∷ rs) [] ys a z a' z' d l dis ea ez h f g = absurd h
  firsts k (suc fuel) node p (r ∷ rs) (x ∷ xs) [] a z a' z' d l dis ea ez h f g = absurd f
  firsts k (suc fuel) node p (r ∷ rs) ((name, value) ∷ xs) ((name', value') ∷ ys) a z a' z' d l
        (new, dis) ea ez (q, n, e, h) (v, raw, en, becomes, f) g =
      let kind = kind_of name m in
      let left = first_requests m xs k in
      let one : Step hhdm_base text_fuel most m left kind node r value'
          (address_after hhdm_base text_fuel most m kind v (d.nodes node).address_cells)
          (size_after hhdm_base text_fuel most m kind v (d.nodes node).size_cells) d =
        step hhdm_base text_fuel most m left node r v d (e ∙ raw) kind value' becomes g in
      let s = one.stepped in
      let more : FirstPass fuel k node (d.properties r).next_property rs ys a' z' one.after =
        firsts k fuel node (d.properties r).next_property rs xs ys
          (address_after hhdm_base text_fuel most m kind v a)
          (size_after hhdm_base text_fuel most m kind v z) a' z' one.after (omega (arith, l)) dis
          (ap (λ (o : Node). o.address_cells) s.node_here
            ∙ ap (address_after hhdm_base text_fuel most m kind v) ea)
          (ap (λ (o : Node). o.size_cells) s.node_here
            ∙ ap (size_after hhdm_base text_fuel most m kind v) ez)
          (same-PropertiesAt d one.after (d.properties r).next_property rs xs
            (NotIn-All r rs new s.others) h)
          f s.grants in
      record {
        after = more.after;
        runs = rw (q, n, one.runs, ap (λ (y : Property). y.next_property) s.here) more.runs;
        passed =
            Stepped-Passed k left node r p rs name' value' ys
              (address_after hhdm_base text_fuel most m kind v (d.nodes node).address_cells)
              (size_after hhdm_base text_fuel most m kind v (d.nodes node).size_cells) a' z' d
              one.after more.after q (n ∙ sym en) new s more.passed;
      }
