-- ===== src/DeviceTree/Steps.antt =====
-- One round of the first pass, on the stores.
use octiron.Base.{ℕ, ◌≡◌, ◌≢◌, ◌∙◌, refl, ap, sym, none, arith, ltb, true, false, done}
use octiron.Number.{Bytes, read_big_endian32}
use octiron.View.{View}
use octiron.Pmm.{Pmm}
use octiron.Bump.{BumpAlloc}
use octiron.Stack.{Ref}
use octiron.Stack.Supply.{put_self}
use octiron.DeviceTree.{DeviceTree, Data, Node, set_node}
use octiron.DeviceTree.Names.{Kind}
use octiron.DeviceTree.Rewrite.{rewrite_property, status_of}
use octiron.DeviceTree.Grants.{Grants}
use octiron.DeviceTree.Regs.{with_value}
use octiron.DeviceTree.Texts.{held_texts, rewrite_compatible-texts}
use octiron.DeviceTree.Places.{put_apart}
use octiron.DeviceTree.Rewritten.{with_first, Becomes, address_after, size_after}

-- Other cells, and nothing else of a node.
abbrev pub with_cells : (address_cells size_cells : ℕ) → Node → Node
with_cells a z n = record n { address_cells = a; size_cells = z }

module _ (hhdm_base text_fuel most : ℕ) (m : Bytes) where
  -- One property has a new value, and one node other cells.
  pub record Stepped (k : ℕ) (node r : Ref) (x : Data) (a z : ℕ) (d d' : DeviceTree) : Type 0 where
    pub here : d'.properties r ≡ record (d.properties r) { value = x }
    pub others : (q : Ref) → q ≢ r → d'.properties q ≡ d.properties q
    pub node_here : d'.nodes node ≡ with_cells a z (d.nodes node)
    pub other_nodes : (q : Ref) → q ≢ node → d'.nodes q ≡ d.nodes q
    pub same_root : d'.root ≡ d.root
    pub grants : Grants hhdm_base most k d'.pmm d'.bump

  pub valued :
      (k : ℕ) (node r : Ref) (x : Data) (s : Pmm) (b : BumpAlloc) (d : DeviceTree)
      → Grants hhdm_base most k s b
      → Stepped k node r x
          (d.nodes node).address_cells
          (d.nodes node).size_cells
          d
          (with_value r x s b d)
  valued k node r x s b d g = record {
    here = put_self d.properties r (record (d.properties r) { value = x });
    others = λ q ne. put_apart d.properties r q (record (d.properties r) { value = x }) ne;
    node_here = refl;
    other_nodes = λ q ne. refl;
    same_root = refl;
    grants = g;
  }

  celled :
      (k : ℕ) (node r : Ref) (x : Data) (a z : ℕ) (d : DeviceTree)
      → Grants hhdm_base most k d.pmm d.bump
      → Stepped k node r x a z d
          (set_node node (with_cells a z (d.nodes node)) (with_value r x d.pmm d.bump d))
  celled k node r x a z d g = record {
    here = put_self d.properties r (record (d.properties r) { value = x });
    others = λ q ne. put_apart d.properties r q (record (d.properties r) { value = x }) ne;
    node_here = put_self d.nodes node (with_cells a z (d.nodes node));
    other_nodes = λ q ne. put_apart d.nodes node q (with_cells a z (d.nodes node)) ne;
    same_root = refl;
    grants = g;
  }

  kept :
      (k : ℕ) (node r : Ref) (x : Data) (d : DeviceTree)
      → (d.properties r).value ≡ x
      → Grants hhdm_base most k d.pmm d.bump
      → Stepped k node r x (d.nodes node).address_cells (d.nodes node).size_cells d d
  kept k node r x d e g = record {
    here = ap (λ (y : Data). record (d.properties r) { value = y }) e;
    others = λ q ne. refl;
    node_here = refl;
    other_nodes = λ q ne. refl;
    same_root = refl;
    grants = g;
  }

  pub record Step (k : ℕ) (kind : Kind) (node r : Ref) (x : Data) (a z : ℕ) (d : DeviceTree)
      : Type 0 where
    pub after : DeviceTree
    pub runs : rewrite_property hhdm_base text_fuel m kind node r d ≡ done (none, after)
    pub stepped : Stepped k node r x a z d after

  module _ (k : ℕ) (node r : Ref) (v : View) (d : DeviceTree)
      (e : (d.properties r).value ≡ Data.raw v) where
    abbrev S : Kind → Data → ℕ → ℕ → Type 0
    S kind x a z = Step k kind node r x a z d

    -- A property whose value is all that changes.
    plain :
        (kind : Kind) (x y : Data)
        → y ≡ x
        → rewrite_property hhdm_base text_fuel m kind node r d
          ≡ done (none, with_value r x d.pmm d.bump d)
        → Grants hhdm_base most k d.pmm d.bump
        → S kind y (d.nodes node).address_cells (d.nodes node).size_cells
    plain kind x y q runs g = record {
      after = with_value r x d.pmm d.bump d;
      runs = runs;
      stepped = rw q (valued k node r x d.pmm d.bump d g);
    }

    pub step :
        (kind : Kind) (x : Data)
        → Becomes hhdm_base text_fuel most m kind v x
        → Grants hhdm_base most (with_first kind k) d.pmm d.bump
        → S kind x
            (address_after hhdm_base text_fuel most m kind v (d.nodes node).address_cells)
            (size_after hhdm_base text_fuel most m kind v (d.nodes node).size_cells)
    unfolding rewrite_property
    step Kind.compatible x (texts, h, small, q) g =
        let (s, b, runs, grants) =
          rewrite_compatible-texts hhdm_base text_fuel m most k v texts r d h small e g in
        record {
          after = with_value r (held_texts texts) s b d;
          runs = rw runs refl;
          stepped = rw q (valued k node r (held_texts texts) s b d grants);
        }
    step Kind.model x q g = plain Kind.model (Data.model v) x q (rw e refl) g
    step Kind.phandle x q g =
        plain Kind.phandle (Data.phandle (read_big_endian32 m v.ptr)) x q (rw e refl) g
    step Kind.status x q g = plain Kind.status (status_of hhdm_base text_fuel m v) x q (rw e refl) g
    step Kind.address_cells x (small, q) g =
        let cells = read_big_endian32 m v.ptr in
        let fits : ltb 3 cells ≡ false = ground (arith, small) in
        record {
          after =
              set_node node (with_cells cells (d.nodes node).size_cells (d.nodes node))
                (with_value r (Data.address_cells cells) d.pmm d.bump d);
          runs = rw (e, fits) refl;
          stepped =
              rw q (celled k node r (Data.address_cells cells) cells (d.nodes node).size_cells d g);
        }
    step Kind.size_cells x (small, q) g =
        let cells = read_big_endian32 m v.ptr in
        let fits : ltb 2 cells ≡ false = ground (arith, small) in
        record {
          after =
              set_node node (with_cells (d.nodes node).address_cells cells (d.nodes node))
                (with_value r (Data.size_cells cells) d.pmm d.bump d);
          runs = rw (e, fits) refl;
          stepped =
              rw q (celled k node r (Data.size_cells cells) (d.nodes node).address_cells cells d g);
        }
    step Kind.dma_coherent x q g =
        plain Kind.dma_coherent (Data.dma_coherence true) x q (rw e refl) g
    step Kind.dma_noncoherent x q g =
        plain Kind.dma_noncoherent (Data.dma_coherence false) x q (rw e refl) g
    step Kind.device_type x q g = plain Kind.device_type (Data.device_type v) x q (rw e refl) g
    step Kind.virtual_reg x q g =
        plain Kind.virtual_reg (Data.virtual_reg (read_big_endian32 m v.ptr)) x q (rw e refl) g
    step Kind.interrupt_parent x q g =
        plain Kind.interrupt_parent (Data.interrupt_parent (read_big_endian32 m v.ptr)) x q
          (rw e refl) g
    step Kind.interrupt_cells x q g =
        plain Kind.interrupt_cells (Data.interrupt_cells (read_big_endian32 m v.ptr)) x q
          (rw e refl) g
    step Kind.interrupt_controller x q g =
        plain Kind.interrupt_controller (Data.interrupt_controller v) x q (rw e refl) g
    step Kind.untouched x q g = record {
      after = d;
      runs = refl;
      stepped = kept k node r x d (e ∙ sym q) g;
    }
    step Kind.unhandled x q g = record {
      after = d;
      runs = refl;
      stepped = kept k node r x d (e ∙ sym q) g;
    }
