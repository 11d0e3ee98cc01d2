-- ===== src/DeviceTree/Keeps.antt =====
-- The second pass over the properties and the memory it takes leave the nodes as they were.
use octiron.Base.{
  ℕ, ◌+◌, ◌*◌, ◌/◌, ◌%◌, ◌≡◌, refl, ◌∙◌, not, ltb, leb, ◌==◌, if◌then◌else◌, Option, none, some,
  fault, Ensures, Ensures-bind, Ensures-skip, Ensures-if, returned, faulted,
}
use octiron.Number.{Bytes, u32}
use octiron.Slab.{assert}
use octiron.View.{View}
use octiron.Bump.{alloc_aligned}
use octiron.Stack.{Ref}
use octiron.DeviceTree.{DeviceTree}
use octiron.DeviceTree.Cells.{
  raw_of, take, store_at, read_pairs, read_trips, rewrite_reg, rewrite_ranges, property_rewrite_reg,
  property_rewrite_ranges,
}

-- The nodes are those that there were.
abbrev pub Keeps : DeviceTree → DeviceTree → Type 0
Keeps d d' = d'.nodes ≡ d.nodes

pub take-Keeps :
    (hhdm_base size alignment : ℕ) (d : DeviceTree)
    → Ensures (λ out. Keeps d out.1) (take hhdm_base size alignment d)
take-Keeps hhdm_base size alignment d =
    Ensures-skip (alloc_aligned hhdm_base size alignment d.pmm d.bump) λ out. returned refl

module _ (m : Bytes) (hhdm_base : ℕ) where
  rewrite_reg-Keeps :
      (address_cells size_cells : ℕ) (prop : Ref) (d : DeviceTree)
      → Ensures (Keeps d) (rewrite_reg m hhdm_base address_cells size_cells prop d)
  unfolding rewrite_reg
  rewrite_reg-Keeps address_cells size_cells prop d =
      Ensures-skip (raw_of (d.properties prop).value) λ bv.
        let address_size = u32 (4 * address_cells) in
        let size_size = u32 (4 * size_cells) in
        let stride = u32 (address_size + size_size) in
        let n_pairs = bv.size / stride in
        Ensures-if (stride == 0) faulted (
          Ensures-skip (assert (ltb 0 n_pairs)) λ _.
            Ensures-skip (assert (bv.size % stride == 0)) λ _.
              Ensures-skip (assert (leb address_cells 3)) λ _.
                Ensures-skip (assert (leb size_cells 2)) λ _.
                  Ensures-bind (take-Keeps hhdm_base (address_size * n_pairs) address_size d)
                    λ (x, d₁) k₁.
                      Ensures-bind (take-Keeps hhdm_base (size_size * n_pairs) size_size d₁)
                        λ (y, d₂) k₂.
                          Ensures-skip (assert (if address_size == 0 then x == 0 else not (x == 0)))
                            λ _.
                              Ensures-skip
                                (assert (if size_size == 0 then y == 0 else not (y == 0)))
                                λ _.
                                  Ensures-skip
                                    (read_pairs m n_pairs address_cells size_cells bv.ptr)
                                    λ _. returned (k₂ ∙ k₁))

  rewrite_ranges-Keeps :
      (child_cells parent_cells size_cells : ℕ) (bv : View) (prop : Ref) (d : DeviceTree)
      → Ensures (Keeps d) (rewrite_ranges m hhdm_base child_cells parent_cells size_cells bv prop d)
  unfolding rewrite_ranges
  rewrite_ranges-Keeps child_cells parent_cells size_cells bv prop d =
      let child_size = u32 (4 * child_cells) in
      let parent_size = u32 (4 * parent_cells) in
      let size_size = u32 (4 * size_cells) in
      let stride = u32 (child_size + parent_size + size_size) in
      let n = bv.size / stride in
      Ensures-if (stride == 0) faulted (
        Ensures-skip (assert (ltb 0 n)) λ _. Ensures-skip (assert (bv.size % stride == 0)) λ _.
          Ensures-skip (assert (leb child_cells 3)) λ _.
            Ensures-skip (assert (leb size_cells 2)) λ _.
              Ensures-bind (take-Keeps hhdm_base (child_size * n) child_size d) λ (x, d₁) k₁.
                Ensures-bind (take-Keeps hhdm_base (child_size * n) child_size d₁) λ (y, d₂) k₂.
                  Ensures-bind (take-Keeps hhdm_base (size_size * n) size_size d₂) λ (z, d₃) k₃.
                    Ensures-skip (store_at x child_size) λ _.
                      Ensures-skip (store_at y parent_size) λ _.
                        Ensures-skip (store_at z size_size) λ _.
                          Ensures-skip (read_trips m n child_cells parent_cells size_cells bv.ptr)
                            λ _. returned (k₃ ∙ k₂ ∙ k₁))

  reg-Keeps :
      (o : Option Ref) (prop : Ref) (d : DeviceTree)
      → Ensures (Keeps d) (elim o [
        | none ↦ fault
        | some parent ↦
            rewrite_reg m hhdm_base
              (d.nodes parent).address_cells
              (d.nodes parent).size_cells
              prop
              d
      ])
  reg-Keeps none prop d = faulted
  reg-Keeps (some parent) prop d =
      rewrite_reg-Keeps (d.nodes parent).address_cells (d.nodes parent).size_cells prop d

  pub property_rewrite_reg-Keeps :
      (node prop : Ref) (d : DeviceTree)
      → Ensures (Keeps d) (property_rewrite_reg m hhdm_base node prop d)
  unfolding property_rewrite_reg
  property_rewrite_reg-Keeps node prop d = reg-Keeps (d.nodes node).parent prop d

  ranges-Keeps :
      (o : Option Ref) (bv : View) (node prop : Ref) (d : DeviceTree)
      → Ensures (Keeps d) (elim o [
        | none ↦ fault
        | some parent ↦
            rewrite_ranges m hhdm_base
              (d.nodes node).address_cells
              (d.nodes parent).address_cells
              (d.nodes node).size_cells
              bv
              prop
              d
      ])
  ranges-Keeps none bv node prop d = faulted
  ranges-Keeps (some parent) bv node prop d =
      rewrite_ranges-Keeps (d.nodes node).address_cells (d.nodes parent).address_cells
        (d.nodes node).size_cells bv prop d

  pub property_rewrite_ranges-Keeps :
      (node prop : Ref) (d : DeviceTree)
      → Ensures (Keeps d) (property_rewrite_ranges m hhdm_base node prop d)
  unfolding property_rewrite_ranges
  property_rewrite_ranges-Keeps node prop d = Ensures-skip (raw_of (d.properties prop).value) λ bv.
      Ensures-if (bv.size == 0) (returned refl) (ranges-Keeps (d.nodes node).parent bv node prop d)
