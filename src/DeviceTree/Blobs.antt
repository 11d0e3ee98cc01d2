-- ===== src/DeviceTree/Blobs.antt =====
-- A whole blob: the header, the end of the reservations, and the structure block.
use octiron.Base.{ℕ, suc, ◌+◌, ◌≤◌, ◌<◌, ◌≡◌, refl, subst, List, ◌∷◌, map, arith}
use octiron.Number.{Bytes}
use octiron.View.{View}
use octiron.Pmm.Spec.{Frames, view}
use octiron.Pmm.Invariant.{IsPmm}
use octiron.Stack.Supplied.{HasFirst, HasFirst-Supplies}
use octiron.DeviceTree.{DeviceTree}
use octiron.DeviceTree.Rewrite.{parse_from_blob, rewrite_pass}
use octiron.DeviceTree.Layout.{Body, tokens, count_nodes, count_properties, pushes}
use octiron.DeviceTree.Build.{IsEnough}
use octiron.DeviceTree.Built.{IsBlob, Built, built, no_reserved}

-- `parse_from_blob` goes on from these stores.
pub parse_from_blob_goes_on :
    (hhdm_base text_fuel rest : ℕ) (m : Bytes) (root_name : View) (dtb : ℕ) (name : View) (b : Body)
    (d : DeviceTree) (blob : IsBlob m text_fuel dtb name b)
    → let fuel = suc (tokens b + suc rest) in
      (stores : Built hhdm_base text_fuel fuel m blob.structures blob.strings name b d)
      → parse_from_blob hhdm_base text_fuel m fuel root_name dtb d
        ≡ rewrite_pass hhdm_base text_fuel m fuel root_name stores.after
unfolding parse_from_blob
parse_from_blob_goes_on hhdm_base text_fuel rest m root_name dtb name b d blob stores =
    rw
      (
        blob.magic,
        no_reserved hhdm_base text_fuel m (tokens b + suc rest) _ d blob.no_reservation,
        blob.at_structures,
        blob.at_strings,
        stores.runs,
      )
      refl

-- The loop over the tokens reads back the tree of a blob that holds one tree and no reservation, with
-- texts shorter than `text_fuel` and offsets below 2 ^ 64. The manager is well-formed and its first
-- region, mapped without a wrap-around, has the memory for a growth of the stacks at each node and
-- property; the stacks' buffers lie below that memory, and may be absent. With more rounds than there
-- are tokens the loop returns: there is one more node for each node and one more property for each
-- property of the blob, and from the address of the first new node on the pointers are the tree that
-- the blob spells, each node with its name, its parent, no cells yet, and its properties and its
-- children in the order from the last to the first, however often the stacks have moved meanwhile.
-- Each node and each property of the tree has a place of its own, and where the root's push filled a
-- new buffer with room for all the nodes, they stay in it.
-- `parse_from_blob` then goes on to the rewriting pass with exactly these stores.
pub parse_from_blob_tree :
    (hhdm_base most places text_fuel low rest : ℕ) (m : Bytes) (root_name : View) (dtb : ℕ)
    (name : View) (b : Body) (buf : ℕ) (f : Frames) (fs : List Frames) (d : DeviceTree)
    → (blob : IsBlob m text_fuel dtb name b) → IsPmm buf d.pmm
    → map view d.pmm.regions ≡ f ∷ fs
    → HasFirst hhdm_base most (suc (pushes b)) low f
    → IsEnough most places
    → d.node_stack.buffer < low
    → d.property_stack.buffer < low
    → d.node_stack.size + suc (count_nodes b) ≤ places
    → d.property_stack.size + count_properties b ≤ places
    → let fuel = suc (tokens b + suc rest) in
      (stores : Built hhdm_base text_fuel fuel m blob.structures blob.strings name b d)
      × (parse_from_blob hhdm_base text_fuel m fuel root_name dtb d
          ≡ rewrite_pass hhdm_base text_fuel m fuel root_name stores.after)
parse_from_blob_tree hhdm_base most places text_fuel low rest m root_name dtb name b buf f fs d blob
      v e first enough node_buffer property_buffer nodes properties =
    let loop =
      built hhdm_base most places text_fuel low rest m dtb name b d enough blob nodes properties
        (record {
          supplies =
              HasFirst-Supplies buf hhdm_base most (suc (pushes b + 0)) low d.pmm f fs enough.small
                v e
                (subst (λ (k : ℕ). HasFirst hhdm_base most (suc k) low f) {x = pushes b}
                  {y = pushes b + 0} (omega arith) first);
          node_buffer = node_buffer;
          property_buffer = property_buffer;
        }) in
    (loop, parse_from_blob_goes_on hhdm_base text_fuel rest m root_name dtb name b d blob loop)
