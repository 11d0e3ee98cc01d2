-- ===== src/DeviceTree/Passes.antt =====
-- `recursive_property_rewrite` on a tree in the stores.
use octiron.Base.{
  ℕ, suc, ◌+◌, ◌<◌, ◌≡◌, ◌≢◌, ◌∙◌, ap, Option, none, some, List, ◌∷◌, ◌++◌, done, length, [], subst,
  refl,
}
use octiron.Number.{Bytes}
use octiron.Number.Endian.{IsBytes}
use octiron.View.{View}
use octiron.Errors.{empty_error}
use octiron.Stack.{Ref}
use octiron.DeviceTree.{DeviceTree, Data, Node}
use octiron.DeviceTree.Layout.{Forest}
use octiron.DeviceTree.Rewrite.{rewrite_node, rewrite_children}
use octiron.DeviceTree.Grants.{Grants}
use octiron.DeviceTree.Places.{
  Places, node_places, property_places, NotIn, Apart, AreDistinct, NotIn-append, Apart-All,
  Apart-sym, NotIn-All, PropertiesAt, TreesAt, same-PropertiesAt, same-TreesAt,
}
use octiron.DeviceTree.Names.{kind_of}
use octiron.DeviceTree.Rewritten.{
  address_after, size_after, first_requests, second_requests, ParentCells, Firsts, Seconds,
}
use octiron.DeviceTree.Steps.{with_cells}
use octiron.DeviceTree.Firsts.{FirstPass, firsts}
use octiron.DeviceTree.Seconds.{ParentHas, same-ParentHas, SecondPass, seconds}

-- Rounds that are enough.
abbrev pub weight : Places → ℕ
weight Places.nil = 1
weight (Places.at r rs inner more) = suc (suc (length rs + (weight inner + weight more)))

-- The first pass keeps the names.
Firsts-second_requests :
    (hhdm_base text_fuel most : ℕ) (m : Bytes) (a z : ℕ) (xs ys : List (View × Data)) (a' z' k : ℕ)
    → Firsts hhdm_base text_fuel most m a z xs ys a' z'
    → second_requests m xs k ≡ second_requests m ys k
Firsts-second_requests hhdm_base text_fuel most m a z [] [] a' z' k f = refl
Firsts-second_requests hhdm_base text_fuel most m a z [] (y ∷ ys) a' z' k f = absurd f
Firsts-second_requests hhdm_base text_fuel most m a z (x ∷ xs) [] a' z' k f = absurd f
Firsts-second_requests hhdm_base text_fuel most m a z ((name, value) ∷ xs) ((name', value') ∷ ys) a'
      z' k (v, raw, en, becomes, f) =
    let rest =
      Firsts-second_requests hhdm_base text_fuel most m
        (address_after hhdm_base text_fuel most m (kind_of name m) v a)
        (size_after hhdm_base text_fuel most m (kind_of name m) v z) xs ys a' z' k f in
    rw (en, rest) refl

-- The parent's place is none of these, and has these cells.
abbrev pub IsOutside : DeviceTree → List Ref → Option Ref → ParentCells → Type 0
IsOutside d rs none none = Unit {0}
IsOutside d rs none (some c) = ⊥
IsOutside d rs (some q) none = ⊥
IsOutside d rs (some q) (some (a, z)) =
    NotIn q rs × ((d.nodes q).address_cells ≡ a) × ((d.nodes q).size_cells ≡ z)

pub IsOutside-ParentHas :
    (d : DeviceTree) (r : Ref) (rs : List Ref) (parent : Option Ref) (c : ParentCells)
    → IsOutside d (r ∷ rs) parent c
    → ParentHas d r parent c
IsOutside-ParentHas d r rs none none h = tt
IsOutside-ParentHas d r rs none (some c) h = h
IsOutside-ParentHas d r rs (some q) none h = h
IsOutside-ParentHas d r rs (some q) (some (a, z)) ((ne, new), ea, ez) = (ne, ea, ez)

-- Behind the first node and the nodes inside it.
pub IsOutside-rest :
    (d d' : DeviceTree) (r : Ref) (inner more : List Ref) (parent : Option Ref) (c : ParentCells)
    → ((q : Ref) → q ≢ r → NotIn q inner → d'.nodes q ≡ d.nodes q)
    → IsOutside d (r ∷ (inner ++ more)) parent c
    → IsOutside d' more parent c
IsOutside-rest d d' r inner more none none keep h = tt
IsOutside-rest d d' r inner more none (some c) keep h = h
IsOutside-rest d d' r inner more (some q) none keep h = h
IsOutside-rest d d' r inner more (some q) (some (a, z)) keep ((ne, new), ea, ez) =
    let (apart, rest) = NotIn-append q inner more new in
    let same = keep q ne apart in
    (rest, ap (λ (x : Node). x.address_cells) same ∙ ea, ap (λ (x : Node). x.size_cells) same ∙ ez)

module _ (hhdm_base text_fuel most : ℕ) (m : Bytes) (bytes : IsBytes m) where
  -- A node, its properties and the trees inside it are rewritten.
  pub record NodeDone (fuel k : ℕ) (r : Ref) (rs : List Ref) (inner : Places) (a z : ℕ)
      (ps : List (View × Data)) (ts : Forest) (d : DeviceTree) : Type 0 where
    pub after : DeviceTree
    pub runs : rewrite_node hhdm_base text_fuel m fuel r d ≡ done (empty_error, after)
    pub here : after.nodes r ≡ with_cells a z (d.nodes r)
    pub properties : PropertiesAt after (d.nodes r).properties rs ps
    pub children : TreesAt after (some r) (d.nodes r).children inner ts
    pub other_nodes : (q : Ref) → q ≢ r → NotIn q (node_places inner) → after.nodes q ≡ d.nodes q
    pub other_properties :
        (q : Ref)
        → NotIn q rs
        → NotIn q (property_places inner)
        → after.properties q ≡ d.properties q
    pub same_root : after.root ≡ d.root
    pub grants : Grants hhdm_base most k after.pmm after.bump

  -- A list of trees is rewritten.
  pub record TreesDone (fuel k : ℕ) (parent p : Option Ref) (places : Places) (ts : Forest)
      (d : DeviceTree) : Type 0 where
    pub after : DeviceTree
    pub runs : rewrite_children hhdm_base text_fuel m fuel p d ≡ done (empty_error, after)
    pub trees : TreesAt after parent p places ts
    pub other_nodes : (q : Ref) → NotIn q (node_places places) → after.nodes q ≡ d.nodes q
    pub other_properties :
        (q : Ref) → NotIn q (property_places places) → after.properties q ≡ d.properties q
    pub same_root : after.root ≡ d.root
    pub grants : Grants hhdm_base most k after.pmm after.bump

  pub node_done :
      (k n fuel : ℕ) (r : Ref) (rs : List Ref) (inner : Places) (parent : Option Ref)
      (c : ParentCells) (a z a' z' : ℕ) (ps mid ps' : List (View × Data)) (ts ts' : Forest)
      (d : DeviceTree)
      → length rs < fuel
      → AreDistinct rs
      → NotIn r (node_places inner)
      → Apart rs (property_places inner)
      → ParentHas d r parent c
      → (d.nodes r).parent ≡ parent
      → (d.nodes r).address_cells ≡ a
      → (d.nodes r).size_cells ≡ z
      → PropertiesAt d (d.nodes r).properties rs ps
      → TreesAt d (some r) (d.nodes r).children inner ts
      → Firsts hhdm_base text_fuel most m a z ps mid a' z'
      → Seconds hhdm_base text_fuel most m a' z' c mid ps'
      → Grants hhdm_base most (first_requests m ps (second_requests m ps n)) d.pmm d.bump
      → ((d₂ : DeviceTree)
          → IsOutside d₂ (node_places inner) (some r) (some (a', z'))
          → TreesAt d₂ (some r) (d.nodes r).children inner ts
          → Grants hhdm_base most n d₂.pmm d₂.bump
          → TreesDone fuel k (some r) (d.nodes r).children inner ts' d₂)
      → NodeDone (suc fuel) k r rs inner a' z' ps' ts' d
  unfolding rewrite_node
  node_done k n fuel r rs inner parent c a z a' z' ps mid ps' ts ts' d l dis new apart has up ea ez
        own trees fs ss g continue =
      let one : FirstPass hhdm_base text_fuel most m fuel (second_requests m ps n) r
          (d.nodes r).properties rs mid a' z' d =
        firsts hhdm_base text_fuel most m (second_requests m ps n) fuel r (d.nodes r).properties rs
          ps mid a z a' z' d l dis ea ez own fs g in
      let here₁ = one.passed.node_here in
      let two : SecondPass hhdm_base text_fuel most m bytes fuel n r (d.nodes r).properties rs ps'
          one.after =
        seconds hhdm_base text_fuel most m bytes n fuel r parent c (d.nodes r).properties rs mid ps'
          a' z' one.after l dis (ap (λ (x : Node). x.parent) here₁ ∙ up)
          (same-ParentHas d one.after r parent c one.passed.other_nodes has)
          (ap (λ (x : Node). x.address_cells) here₁) (ap (λ (x : Node). x.size_cells) here₁)
          one.passed.values ss
          (subst (λ (o : ℕ). Grants hhdm_base most o one.after.pmm one.after.bump)
            (Firsts-second_requests hhdm_base text_fuel most m a z ps mid a' z' n fs)
            one.passed.grants) in
      let here₂ : two.after.nodes r ≡ with_cells a' z' (d.nodes r) = two.passed.node_here ∙ here₁ in
      let keep_nodes =
        λ (q : Ref) (ne : q ≢ r). two.passed.other_nodes q ne ∙ one.passed.other_nodes q ne in
      let keep_properties = λ (q : Ref) (absent : NotIn q rs).
        two.passed.others q absent ∙ one.passed.others q absent in
      let three : TreesDone fuel k (some r) (d.nodes r).children inner ts' two.after =
        continue two.after
          (new, ap (λ (x : Node). x.address_cells) here₂, ap (λ (x : Node). x.size_cells) here₂)
          (same-TreesAt d two.after (some r) (d.nodes r).children inner ts
            (NotIn-All r (node_places inner) new keep_nodes)
            (Apart-All (property_places inner) rs (Apart-sym rs (property_places inner) apart)
              keep_properties)
            trees)
          two.passed.grants in
      record {
        after = three.after;
        runs =
            rw
              (
                one.runs,
                ap (λ (x : Node). x.properties) here₁,
                two.runs,
                ap (λ (x : Node). x.children) here₂,
              )
              three.runs;
        here = three.other_nodes r new ∙ here₂;
        properties =
            same-PropertiesAt two.after three.after (d.nodes r).properties rs ps'
              (Apart-All rs (property_places inner) apart three.other_properties) two.passed.values;
        children = three.trees;
        other_nodes = λ q ne absent. three.other_nodes q absent ∙ keep_nodes q ne;
        other_properties =
            λ q absent inside. three.other_properties q inside ∙ keep_properties q absent;
        same_root = three.same_root ∙ two.passed.same_root ∙ one.passed.same_root;
        grants = three.grants;
      }
