-- ===== src/Words.antt =====
-- Memory as the kernel's linked structures see it: one 64-bit word at each address of a field.
-- The fields that are modelled are words at multiples of 8, so an access meets a field or misses it.
use octiron.Base.{ℕ, ◌+◌, ◌≤◌, ◌<◌, ◌≡◌, ◌≢◌, ◌&&◌, ◌⊎◌, leb, ltb, ◌==◌, if◌then◌else◌, arith}

abbrev pub Words : Type 0
Words = ℕ → ℕ

-- A store of a word.
unfoldable pub write : Words → ℕ → ℕ → Words
write m a v p = if p == a then v else m p

-- `mem::fill(dest, 0, count)` on the words from `dest` on.
unfoldable pub fill_zero : Words → ℕ → ℕ → Words
fill_zero m dest count p = if leb dest p && ltb p (dest + count) then 0 else m p

pub write_same : (m : Words) (a v : ℕ) → write m a v a ≡ v
unfolding write
write_same m a v = ground arith

pub write_other : (m : Words) (a v p : ℕ) → p ≢ a → write m a v p ≡ m p
unfolding write
write_other m a v p h = ground arith

pub fill_zero_inside :
    (m : Words) (dest count p : ℕ) → dest ≤ p → p < dest + count → fill_zero m dest count p ≡ 0
unfolding fill_zero
fill_zero_inside m dest count p h l = ground arith

pub fill_zero_outside :
    (m : Words) (dest count p : ℕ)
    → (p < dest) ⊎ (dest + count ≤ p)
    → fill_zero m dest count p ≡ m p
unfolding fill_zero
fill_zero_outside m dest count p h = ground arith
