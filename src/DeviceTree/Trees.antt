-- ===== src/DeviceTree/Trees.antt =====
-- The loop over the tokens builds the tree that the structure block spells.
use native.Mathlib.Nat.{add_assoc}
use octiron.Base.{ℕ, suc, ◌+◌, ◌^◌, ◌≤◌, ◌<◌, ◌≡◌, ◌∙◌, refl, ap, subst, some, done, arith}
use octiron.Number.{Bytes, u64, align_up}
use octiron.View.{View}
use octiron.Stack.{Ref, Stack}
use octiron.DeviceTree.{DeviceTree, Node}
use octiron.DeviceTree.Parse.{Parser, Token, again, handle, parse_node, enter_node}
use octiron.DeviceTree.Layout.{
  Body, IsText, padded, tokens, count_nodes, count_properties, pushes, properties_onto,
  children_onto,
}
use octiron.DeviceTree.Grown.{Grown-trans, Grown-counts}
use octiron.DeviceTree.Build.{IsStocked, IsEnough}
use octiron.DeviceTree.Enter.{Entered, enter}
use octiron.DeviceTree.Inside.{Entered-Grown}
use octiron.DeviceTree.Rounds.{
  Parsed, Ready, round, Spells-le, Spells-aligned, IsText-from_null_term, align_up-padded, suc-add,
  close-Parsed, nop-Parsed, prop-Parsed,
}

-- The parser inside a new node.
abbrev pub inside : (name : View) (p : Parser) → Ref × DeviceTree → Parser
inside name p (ref, d) = record {
  current = some ref;
  offset = p.offset + 4 + padded (name.size + 1);
  depth = u64 (p.depth + 1);
  tree = d;
}

module _ (hhdm_base text_fuel : ℕ) (m : Bytes) (structures strings : ℕ) where
  pub handle_begin :
      (name : View) (p : Parser) (mid : ℕ) (out : Ref × DeviceTree)
      → IsText m text_fuel (structures + (p.offset + 4)) name
      → p.offset + 4 + padded (name.size + 1) + 4 ≤ mid
      → mid < 2 ^ 64
      → enter_node hhdm_base text_fuel m name p.current p.tree ≡ done out
      → handle hhdm_base text_fuel m structures strings Token.begin_node
          (record p { offset = p.offset + 4 })
        ≡ done (again (inside name p out))
  unfolding handle parse_node
  handle_begin name p mid out n past small entered =
      let pad = align_up-padded (name.size + 1) (omega arith) in
      let off : u64 (p.offset + 4 + align_up (name.size + 1) 4)
          ≡ p.offset + 4 + padded (name.size + 1) =
        omega (arith, pad) in
      rw (IsText-from_null_term m text_fuel _ name n, entered, off) refl

  module _ (most places : ℕ) (enough : IsEnough most places) where
    abbrev P : ℕ → Body → Ref → ℕ → Parser → ℕ → Type 0
    P = Parsed hhdm_base text_fuel m structures strings most places enough

    abbrev R : ℕ → Body → Ref → ℕ → Parser → ℕ → Type 0
    R = Ready hhdm_base text_fuel m structures strings most places enough

    -- A new node, its body, and what is left of its parent's.
    child-Parsed :
        (n : ℕ) (name : View) (b rest : Body) (c : Ref) (low : ℕ) (p : Parser) (e : ℕ)
        → R n (Body.child name b rest) c low p e
        → ((k : ℕ) (c' : Ref) (low' : ℕ) (p' : Parser) (mid : ℕ)
            → R k b c' low' p' mid
            → P k b c' low' p' mid)
        → ((low' : ℕ) (p' : Parser) → R n rest c low' p' e → P n rest c low' p' e)
        → P n (Body.child name b rest) c low p e
    child-Parsed n name b rest c low p e h inner next =
        let (t, text, (mid, s, s')) = h.spells in
        let start = p.offset + 4 + padded (name.size + 1) in
        let past = Spells-le m text_fuel structures strings b start mid s in
        let past' = Spells-le m text_fuel structures strings rest mid e s' in
        let left = pushes b + (pushes rest + n) in
        let count : pushes (Body.child name b rest) + n ≡ suc left = omega arith in
        let entered : Entered hhdm_base most left text_fuel low m name p.tree c =
          enter hhdm_base most left text_fuel low m name p.tree places enough
            (omega (arith, h.nodes))
            (subst (λ (k : ℕ). IsStocked hhdm_base most k low p.tree) count h.stocked) c h.buffer
            h.old in
        let new = entered.new in
        let sizes = ap (λ (x : Stack). x.size) new.property_stack in
        let p₁ = inside name p (new.ref, new.after) in
        let begun =
          handle_begin name p mid (new.ref, new.after) text past (omega (arith, past', h.small))
            (rw h.open_node new.runs) in
        let one : P (pushes rest + n) b new.ref new.low' p₁ mid =
          inner (pushes rest + n) new.ref new.low' p₁ mid (record {
            open_node = refl;
            aligned = omega (arith, h.aligned);
            small = omega (arith, past', h.small);
            spells = s;
            buffer = new.ref_below;
            old = omega (arith, new.index, new.node_size);
            nodes = omega (arith, h.nodes, new.node_size);
            properties = omega (arith, h.properties, sizes);
            stocked = new.stocked;
          }) in
        let grown =
          Entered-Grown hhdm_base most left text_fuel low m name p.tree c (count_nodes b)
            (count_properties b) one.low' (properties_onto b) (children_onto b) one.after.tree
            h.buffer h.old entered one.grown in
        let up : one.after.current ≡ some c =
          one.current ∙ ap (λ (x : Node). x.parent) entered.inside in
        let two : P n rest c one.low' one.after e = next one.low' one.after (record {
          open_node = up;
          aligned = rw one.offset (
              Spells-aligned m text_fuel structures strings b start mid (omega (arith, h.aligned))
                s);
          small = h.small;
          spells = rw one.offset s';
          buffer = omega (arith, grown.rises, h.buffer);
          old = omega (arith, grown.node_size, h.old);
          nodes = omega (arith, grown.node_size, h.nodes);
          properties = omega (arith, grown.property_size, h.properties);
          stocked = one.stocked;
        }) in
        record {
          after = two.after;
          low' = two.low';
          runs = λ k.
              rw (suc-add (tokens b + tokens rest) k, add_assoc (tokens b) (tokens rest) k)
                (round hhdm_base text_fuel m structures strings p p₁ Token.begin_node h.aligned
                    (omega (arith, past, past', h.small)) (rw t refl) begun
                    (tokens b + (tokens rest + k))
                  ∙ one.runs (tokens rest + k)
                  ∙ two.runs k);
          offset = two.offset;
          current = two.current ∙ grown.kept.parent;
          stocked = two.stocked;
          grown = Grown-counts (omega arith) (omega arith) (Grown-trans grown two.grown);
        }

    pub parsed :
        (n : ℕ) (b : Body) (c : Ref) (low : ℕ) (p : Parser) (e : ℕ)
        → R n b c low p e
        → P n b c low p e
    parsed n Body.close c low p e h =
        close-Parsed hhdm_base text_fuel m structures strings most places enough n c low p e h
    parsed n (Body.nop b) c low p e h =
        nop-Parsed hhdm_base text_fuel m structures strings most places enough n b c low p e h
          λ p'. parsed n b c low p' e
    parsed n (Body.prop name value b) c low p e h =
        prop-Parsed hhdm_base text_fuel m structures strings most places enough n name value b c low
          p e h λ low' p'. parsed n b c low' p' e
    parsed n (Body.child name b rest) c low p e h =
        child-Parsed n name b rest c low p e h (λ k c' low' p' mid. parsed k b c' low' p' mid)
          λ low' p'. parsed n rest c low' p' e
