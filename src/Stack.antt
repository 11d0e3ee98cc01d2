-- ===== src/Stack.antt =====
-- kernel/include/types/stack.h: `stack<T>`, an array that grows by pages of the physical memory
-- manager. The elements stand in a store by the address of their buffer and their index: two buffers
-- never share memory, and a buffer that was given up keeps its elements, since `pmm::free` gives
-- nothing back.
mod Tests
pub mod Push
pub mod Supply
pub mod Supplied
use octiron.Base.{
  ℕ, suc, ◌+◌, ◌*◌, ◌/◌, ◌%◌, ◌^◌, Bool, not, ◌&&◌, ltb, ◌==◌, if◌then◌else◌, Run, done, ◌>>=◌,
  ◌>>◌,
}
use octiron.Number.{u64, align_up}
use octiron.Slab.{assert}
use octiron.Pmm.{Pmm, page_size}
use octiron.Pmm.Take.{alloc_noerr}
use octiron.Bump.{hhdm_phys_to_virt}

pub record Stack : Type 0 where
  pub size : ℕ
  pub capacity : ℕ
  pub buffer : ℕ

-- `stack()`.
abbrev pub empty : Stack
empty = record { size = 0; capacity = 0; buffer = 0 }

-- The address of an element.
pub record Ref : Type 0 where
  pub buffer : ℕ
  pub index : ℕ

-- The move constructor and the move assignment: the new stack, and what is left of the other.
abbrev pub move : Stack → Stack × Stack
move other = (other, empty)

abbrev pub same : Ref → Ref → Bool
same r q = r.buffer == q.buffer && r.index == q.index

module _ {ℓ} {A : Type ℓ} where
  abbrev pub put : (Ref → A) → Ref → A → Ref → A
  put m r v q = if same r q then v else m q

  -- `mem::copy` of the first `n` elements.
  abbrev pub copy : (old new n : ℕ) → (Ref → A) → Ref → A
  copy old new n m q =
      if q.buffer == new && ltb q.index n then m (record { buffer = old; index = q.index }) else m q

  -- `operator[]`, which checks nothing.
  abbrev pub at : Stack → (Ref → A) → ℕ → A
  at t m i = m (record { buffer = t.buffer; index = i })

-- A stack and its elements, with the manager that it takes memory from.
pub record Stacked {ℓ} (A : Type ℓ) : Type ℓ where
  pub pmm : Pmm
  pub stack : Stack
  pub items : Ref → A

-- The capacity after growth, by `sizeof(T)`.
abbrev pub new_size : (size_of capacity : ℕ) → ℕ
new_size size_of capacity =
    let current_size = align_up (u64 (capacity * size_of)) page_size in
    align_up (u64 (1 + u64 (current_size * 3) / 2)) page_size

-- The parameters are `pinfo.hhdm_base` and `sizeof(T)`.
module _ {ℓ} {A : Type ℓ} (hhdm_base size_of : ℕ) where
  unfoldable pub grow : Stacked A → Run (Stacked A)
  grow t =
      if t.stack.size == t.stack.capacity
      then (do
        let bytes = new_size size_of t.stack.capacity
        (new_pa, s) ← alloc_noerr bytes t.pmm
        assert (not (new_pa == 0))
        let new_buffer = hhdm_phys_to_virt hhdm_base new_pa
        done (record {
          pmm = s;
          stack = record { size = t.stack.size; capacity = bytes / size_of; buffer = new_buffer };
          items = copy t.stack.buffer new_buffer t.stack.capacity t.items;
        }))
      else done t

  -- The address of the new element, and the new stack. `emplace_back` does the same with an element
  -- that it makes in place.
  unfoldable pub push_back : A → Stacked A → Run (Ref × Stacked A)
  push_back value t = do
    t' ← grow t
    let r : Ref = record { buffer = t'.stack.buffer; index = t'.stack.size }
    done (
      r,
      record t' {
        stack = record t'.stack { size = t'.stack.size + 1 };
        items = put t'.items r value;
      },
    )
