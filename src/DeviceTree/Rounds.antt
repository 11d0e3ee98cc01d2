-- ===== src/DeviceTree/Rounds.antt =====
-- The rounds of the loop over the tokens on a structure block that spells a tree.
use octiron.Base.{
  ℕ, suc, ◌+◌, ◌%◌, ◌^◌, ◌≤◌, ◌<◌, ◌≡◌, ◌∙◌, ◌==◌, refl, subst, true, some, done, arith,
}
use octiron.Number.{Bytes, u64, sub64, read_big_endian32, align_up}
use octiron.Number.Align.{align_up_lem}
use octiron.Memory.Laws.{strlen_lem}
use octiron.View.{View, from_null_term}
use octiron.Stack.{Ref}
use octiron.DeviceTree.{DeviceTree}
use octiron.DeviceTree.Parse.{
  Parser, Token, token_of, again, handle, pre_parse_property, add_property, parse_structures,
}
use octiron.DeviceTree.Layout.{
  Body, IsText, Spells, padded, tokens, count_nodes, count_properties, pushes, properties_onto,
  children_onto,
}
use octiron.DeviceTree.Grown.{Grown, Grown-refl, Grown-trans, Grown-counts}
use octiron.DeviceTree.Build.{IsStocked, IsEnough, WithProperty, with_property}

pub IsText-from_null_term :
    (m : Bytes) (fuel p : ℕ) (v : View) → IsText m fuel p v → from_null_term fuel p m ≡ done v
unfolding from_null_term
IsText-from_null_term m fuel p v t =
    rw (← t.starts) (rw (strlen_lem fuel v.size v.ptr m t.short t.ends t.inside) refl)

module _ (m : Bytes) (fuel structures strings : ℕ) where
  pub Spells-le : (b : Body) (o e : ℕ) → Spells m fuel structures strings b o e → o + 4 ≤ e
  Spells-le Body.close o e (t, q) = omega arith
  Spells-le (Body.nop b) o e (t, s) = omega (arith, Spells-le b (o + 4) e s)
  Spells-le (Body.prop name value b) o e (t, l, v, n, s) =
      omega (arith, Spells-le b (o + 12 + padded value.size) e s)
  Spells-le (Body.child name inner rest) o e (t, n, (mid, s, s')) =
      omega (arith, Spells-le inner (o + 4 + padded (name.size + 1)) mid s, Spells-le rest mid e s')

  pub Spells-aligned :
      (b : Body) (o e : ℕ) → o % 4 ≡ 0 → Spells m fuel structures strings b o e → e % 4 ≡ 0
  Spells-aligned Body.close o e a (t, q) = omega (arith, q)
  Spells-aligned (Body.nop b) o e a (t, s) = Spells-aligned b (o + 4) e (omega arith) s
  Spells-aligned (Body.prop name value b) o e a (t, l, v, n, s) =
      Spells-aligned b (o + 12 + padded value.size) e (omega arith) s
  Spells-aligned (Body.child name inner rest) o e a (t, n, (mid, s, s')) =
      Spells-aligned rest mid e
        (Spells-aligned inner (o + 4 + padded (name.size + 1)) mid (omega arith) s) s'

pub align_up-padded : (n : ℕ) → n + 4 ≤ 2 ^ 64 → align_up n 4 ≡ padded n
align_up-padded n h = omega (arith, align_up_lem 2 n (omega arith) h)

pub one_add : (n : ℕ) → 1 + n ≡ suc n
one_add n = omega arith

zero_add : (n : ℕ) → 0 + n ≡ n
zero_add n = omega arith

pub suc-add : (a b : ℕ) → suc a + b ≡ suc (a + b)
suc-add a b = omega arith

module _ (hhdm_base text_fuel : ℕ) (m : Bytes) (structures strings : ℕ) where
  -- A round of the loop that goes on.
  pub round :
      (p p' : Parser) (t : Token)
      → p.offset % 4 ≡ 0
      → p.offset + 4 < 2 ^ 64
      → token_of (read_big_endian32 m (structures + p.offset)) ≡ t
      → handle hhdm_base text_fuel m structures strings t (record p { offset = p.offset + 4 })
        ≡ done (again p')
      → (fuel : ℕ)
      → parse_structures hhdm_base text_fuel m (suc fuel) structures strings p
        ≡ parse_structures hhdm_base text_fuel m fuel structures strings p'
  unfolding parse_structures
  round p p' t a small is handled fuel =
      let holds : (p.offset % 4 == 0) ≡ true = ground (arith, a) in
      let behind : u64 (p.offset + 4) ≡ p.offset + 4 = omega arith in
      rw (holds, is, behind, handled) refl

  module _ (most places : ℕ) (enough : IsEnough most places) where
    -- The parser behind the body of the node at `c`, with memory for `n` requests left.
    pub record Parsed (n : ℕ) (b : Body) (c : Ref) (low : ℕ) (p : Parser) (e : ℕ) : Type 0 where
      pub after : Parser
      pub low' : ℕ
      pub runs :
          (rest : ℕ)
          → parse_structures hhdm_base text_fuel m (tokens b + rest) structures strings p
            ≡ parse_structures hhdm_base text_fuel m rest structures strings after
      pub offset : after.offset ≡ e
      pub current : after.current ≡ (p.tree.nodes c).parent
      pub stocked : IsStocked hhdm_base most n low' after.tree
      pub grown :
          Grown c
            (count_nodes b)
            (count_properties b)
            (properties_onto b)
            (children_onto b)
            low
            low'
            p.tree
            after.tree

    -- The loop can go on at the body of the node at `c`, and there is memory for the body.
    pub record Ready (n : ℕ) (b : Body) (c : Ref) (low : ℕ) (p : Parser) (e : ℕ) : Type 0 where
      pub open_node : p.current ≡ some c
      pub aligned : p.offset % 4 ≡ 0
      pub small : e < 2 ^ 64
      pub spells : Spells m text_fuel structures strings b p.offset e
      pub buffer : c.buffer < low
      pub old : c.index < p.tree.node_stack.size
      pub nodes : p.tree.node_stack.size + count_nodes b ≤ places
      pub properties : p.tree.property_stack.size + count_properties b ≤ places
      pub stocked : IsStocked hhdm_base most (pushes b + n) low p.tree

    pub close-Parsed :
        (n : ℕ) (c : Ref) (low : ℕ) (p : Parser) (e : ℕ)
        → Ready n Body.close c low p e
        → Parsed n Body.close c low p e
    unfolding handle
    close-Parsed n c low p e h =
        let (t, end) = h.spells in
        let p' : Parser = record p {
          offset = p.offset + 4;
          current = (p.tree.nodes c).parent;
          depth = sub64 p.depth 1;
        } in
        record {
          after = p';
          low' = low;
          runs = λ rest. rw (one_add rest) (
              round p p' Token.end_node h.aligned (omega (arith, end, h.small)) (rw t refl)
                (rw h.open_node refl) rest);
          offset = omega (arith, end);
          current = refl;
          stocked = subst (λ (k : ℕ). IsStocked hhdm_base most k low p.tree) (zero_add n) h.stocked;
          grown = Grown-refl c low p.tree;
        }

    pub nop-Parsed :
        (n : ℕ) (b : Body) (c : Ref) (low : ℕ) (p : Parser) (e : ℕ)
        → Ready n (Body.nop b) c low p e
        → ((p' : Parser) → Ready n b c low p' e → Parsed n b c low p' e)
        → Parsed n (Body.nop b) c low p e
    unfolding handle
    nop-Parsed n b c low p e h more =
        let (t, s) = h.spells in
        let p' : Parser = record p { offset = p.offset + 4 } in
        let past = Spells-le m text_fuel structures strings b (p.offset + 4) e s in
        let rest = more p' (record {
          open_node = h.open_node;
          aligned = omega (arith, h.aligned);
          small = h.small;
          spells = s;
          buffer = h.buffer;
          old = h.old;
          nodes = h.nodes;
          properties = h.properties;
          stocked = h.stocked;
        }) in
        record {
          after = rest.after;
          low' = rest.low';
          runs = λ k. rw (suc-add (tokens b) k) (
              round p p' Token.nop h.aligned (omega (arith, past, h.small)) (rw t refl) refl
                (tokens b + k)
              ∙ rest.runs k);
          offset = rest.offset;
          current = rest.current;
          stocked = rest.stocked;
          grown = rest.grown;
        }

    handle_prop :
        (n : ℕ) (name value : View) (b : Body) (c : Ref) (low : ℕ) (p : Parser) (e : ℕ)
        (d' : DeviceTree)
        → Ready n (Body.prop name value b) c low p e
        → add_property hhdm_base text_fuel m (some c) name value p.tree ≡ done d'
        → handle hhdm_base text_fuel m structures strings Token.prop
            (record p { offset = p.offset + 4 })
          ≡ done (again (record p { offset = p.offset + 12 + padded value.size; tree = d' }))
    unfolding handle pre_parse_property
    handle_prop n name value b c low p e d' h added =
        let (t, l, v, name_text, s) = h.spells in
        let past =
          Spells-le m text_fuel structures strings b (p.offset + 12 + padded value.size) e s in
        let pad = align_up-padded value.size (omega (arith, past, h.small)) in
        let off : u64 (p.offset + 4 + 8 + align_up value.size 4)
            ≡ p.offset + 12 + padded value.size =
          omega (arith, pad, past, h.small) in
        rw (h.open_node, l, v, IsText-from_null_term m text_fuel _ name name_text, added, off) refl

    pub prop-Parsed :
        (n : ℕ) (name value : View) (b : Body) (c : Ref) (low : ℕ) (p : Parser) (e : ℕ)
        → Ready n (Body.prop name value b) c low p e
        → ((low' : ℕ) (p' : Parser) → Ready n b c low' p' e → Parsed n b c low' p' e)
        → Parsed n (Body.prop name value b) c low p e
    prop-Parsed n name value b c low p e h more =
        let (t, l, v, name_text, s) = h.spells in
        let past =
          Spells-le m text_fuel structures strings b (p.offset + 12 + padded value.size) e s in
        let one : WithProperty hhdm_base most (pushes b + n) text_fuel low m c name value p.tree =
          with_property hhdm_base most (pushes b + n) text_fuel low m c name value p.tree places
            enough (omega (arith, h.properties))
            (subst (λ (k : ℕ). IsStocked hhdm_base most k low p.tree) (suc-add (pushes b) n)
              h.stocked) in
        let p' : Parser = record p {
          offset = p.offset + 12 + padded value.size;
          tree = one.after;
        } in
        let rest = more one.low' p' (record {
          open_node = h.open_node;
          aligned = omega (arith, h.aligned);
          small = h.small;
          spells = s;
          buffer = omega (arith, h.buffer, one.grown.rises);
          old = omega (arith, h.old, one.grown.node_size);
          nodes = omega (arith, h.nodes, one.grown.node_size);
          properties = omega (arith, h.properties, one.grown.property_size);
          stocked = one.stocked;
        }) in
        record {
          after = rest.after;
          low' = rest.low';
          runs = λ k. rw (suc-add (tokens b) k) (
              round p p' Token.prop h.aligned (omega (arith, past, h.small)) (rw t refl)
                (handle_prop n name value b c low p e one.after h one.runs) (tokens b + k)
              ∙ rest.runs k);
          offset = rest.offset;
          current = rest.current ∙ one.grown.kept.parent;
          stocked = rest.stocked;
          grown = Grown-counts (omega arith) (omega arith) (Grown-trans one.grown rest.grown);
        }
