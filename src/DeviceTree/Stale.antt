-- ===== src/DeviceTree/Stale.antt =====
-- A node that is entered under a node of a buffer that the stack has outgrown.
use octiron.Base.{ℕ, ◌+◌, ◌<◌, ◌≡◌, ◌≢◌, ◌∙◌, refl, ap, sym, none, some, false, ◌==◌, done, arith}
use octiron.Number.{Bytes}
use octiron.View.{View}
use octiron.Stack.{Ref, push_back, grow}
use octiron.Stack.Supply.{put_self}
use octiron.DeviceTree.{DeviceTree, Node, set_node, emplace_node}
use octiron.DeviceTree.Parse.{enter_node}
use octiron.DeviceTree.Places.{put_apart}

-- With room in the node stack, a node that is entered under a node in another buffer than the stack's is
-- linked there only: the copy of that node in the stack's buffer, from which the rewriting pass and
-- `print_device_tree` start when it is the first, keeps the children that it had.
pub enter_node_stale :
    (hhdm_base text_fuel : ℕ) (m : Bytes) (name : View) (c : Ref) (d : DeviceTree)
    → c.buffer ≢ d.node_stack.buffer
    → c.index < d.node_stack.size
    → d.node_stack.size < d.node_stack.capacity
    → let copy : Ref = record { buffer = d.node_stack.buffer; index = c.index } in
      (new : Ref) × (after : DeviceTree) × (enter_node hhdm_base text_fuel m name (some c) d
        ≡ done (new, after))
      × (after.node_stack.buffer ≡ d.node_stack.buffer)
      × ((after.nodes c).children ≡ some new)
      × ((after.nodes new).parent ≡ some c)
      × (after.nodes copy ≡ d.nodes copy)
unfolding enter_node emplace_node push_back grow
enter_node_stale hhdm_base text_fuel m name c d apart old room =
    let stack = d.node_stack in
    let new : Ref = record { buffer = stack.buffer; index = stack.size } in
    let x : Node = record {
      name = name;
      address_cells = 0;
      size_cells = 0;
      properties = none;
      parent = some c;
      children = none;
      next_sibling = none;
    } in
    let d₁ : DeviceTree =
      set_node new x (record d { node_stack = record stack { size = stack.size + 1 } }) in
    let y : Node = record (d₁.nodes new) { next_sibling = (d₁.nodes c).children } in
    let d₂ = set_node new y d₁ in
    let z : Node = record (d₂.nodes c) { children = some new } in
    let after = set_node c z d₂ in
    let copy : Ref = record { buffer = stack.buffer; index = c.index } in
    let free : (stack.size == stack.capacity) ≡ false = ground (arith, room) in
    let new_apart : new ≢ c = λ e. apart (sym (ap (λ (r : Ref). r.buffer) e)) in
    let copy_apart : copy ≢ c = λ e. apart (sym (ap (λ (r : Ref). r.buffer) e)) in
    let copy_old : copy ≢ new = λ e. omega (arith, ap (λ (r : Ref). r.index) e, old) in
    (
      new,
      after,
      rw free refl,
      refl,
      ap (λ (n : Node). n.children) (put_self d₂.nodes c z),
      ap (λ (n : Node). n.parent) (put_apart d₂.nodes c new z new_apart ∙ put_self d₁.nodes new y)
          ∙ ap (λ (n : Node). n.parent) (put_self d.nodes new x),
      put_apart d₂.nodes c copy z copy_apart
          ∙ put_apart d₁.nodes new copy y copy_old
          ∙ put_apart d.nodes new copy x copy_old,
    )
