-- ===== src/Memory.antt =====
-- kernel/src/memory.cpp: the byte routines, on memory as a function from address to byte.
mod Tests
pub mod Laws
use octiron.Base.{
  ℕ, zero, suc, ◌+◌, Bool, true, false, ◌||◌, ◌&&◌, not, ◌==◌, if◌then◌else◌, Run, done, halt,
}
use octiron.Base.Int.{ℤ, pos, sub_ℕ}
use octiron.Number.{Bytes}

-- A store of a byte.
unfoldable pub store : Bytes → ℕ → ℕ → Bytes
store m a v p = if p == a then v else m p

-- The loops have the rounds that are left and the index.
unfoldable pub fill_loop : (left i dest c : ℕ) → Bytes → Bytes
fill_loop zero i dest c m = m
fill_loop (suc left) i dest c m = fill_loop left (i + 1) dest c (store m (dest + i) c)

unfoldable pub fill : (dest c count : ℕ) → Bytes → Bytes
unfolding fill_loop store
fill dest c count m = fill_loop count 0 dest c m

unfoldable pub copy_loop : (left i src dst : ℕ) → Bytes → Bytes
copy_loop zero i src dst m = m
copy_loop (suc left) i src dst m = copy_loop left (i + 1) src dst (store m (dst + i) (m (src + i)))

unfoldable pub copy : (src dst count : ℕ) → Bytes → Bytes
unfolding copy_loop store
copy src dst count m = copy_loop count 0 src dst m

-- `while (--count && *lhs_u8 == *rhs_u8)` with `count` still to be decremented.
unfoldable pub cmp_loop : (count lhs rhs : ℕ) → Bytes → ℤ
cmp_loop zero lhs rhs m = pos 0
cmp_loop (suc count) lhs rhs m =
    let rest = cmp_loop count (lhs + 1) (rhs + 1) m in
    if not (count == 0) && m lhs == m rhs then rest else sub_ℕ (m lhs) (m rhs)

unfoldable pub cmp : (lhs rhs count : ℕ) → Bytes → ℤ
unfolding cmp_loop
cmp lhs rhs count m = if lhs == rhs || count == 0 then pos 0 else cmp_loop count lhs rhs m

-- The loop ends at a zero byte; `fuel` bounds its rounds, and memory without one keeps it going.
unfoldable pub strlen_loop : (fuel len src : ℕ) → Bytes → Run ℕ
strlen_loop zero len src m = halt
strlen_loop (suc fuel) len src m =
    let rest = strlen_loop fuel (len + 1) src m in if m (src + len) == 0 then done len else rest

unfoldable pub strlen : (fuel src : ℕ) → Bytes → Run ℕ
unfolding strlen_loop
strlen fuel src m = strlen_loop fuel 0 src m
