-- ===== src/StaticArray.antt =====
-- kernel/include/types/static_array.h: an array of `N` elements, which page tables are made of. Reading
-- or writing behind the last element is undefined.
mod Laws
use octiron.Base.{
  ℕ, zero, suc, Bool, Option, none, some, List, ◌==◌, Run, done, fault, get_elem?, set, ◌>>=◌,
}

module _ {ℓ} {A : Type ℓ} where
  -- The loop of the constructor that takes a value, with `rounds` rounds left.
  unfoldable fill_rest : (rounds i : ℕ) → A → List A → List A
  fill_rest zero i val m_data = m_data
  fill_rest (suc rounds) i val m_data = fill_rest rounds (suc i) val (set m_data i val)

  -- The constructor that takes a value, from whatever the storage holds.
  unfoldable filled : (n : ℕ) → A → List A → List A
  filled n val m_data = fill_rest n 0 val m_data

  -- What stands at an index, if it is one of the array's.
  abbrev defined : Option A → Run A
  defined none = fault
  defined (some x) = done x

  -- `operator[]`, read.
  unfoldable element_at : List A → ℕ → Run A
  element_at m_data index = defined (get_elem? m_data index)

  -- `operator[]`, written through the reference.
  unfoldable set_element : List A → ℕ → A → Run (List A)
  set_element m_data index x = defined (get_elem? m_data index) >>= λ y. done (set m_data index x)

unfoldable array_empty : (n : ℕ) → Bool
array_empty n = n == 0

unfoldable array_size : (n : ℕ) → ℕ
array_size n = n
