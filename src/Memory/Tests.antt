-- ===== src/Memory/Tests.antt =====
-- The byte routines on a memory that counts up.
use octiron.Base.{◌%◌, ◌≡◌, inl, refl, done, arith}
use octiron.Number.{Bytes}
use octiron.Memory.{copy, strlen}
use octiron.Memory.Laws.{copy_lem, strlen_lem}

abbrev ramp : Bytes
ramp a = a % 256

-- The destination overlaps the source from below.
copy_lem_example : copy 0x12 0x10 4 ramp 0x13 ≡ 0x15
copy_lem_example = copy_lem 0x12 0x10 4 ramp 0x13 (inl (omega arith))

strlen_lem_example : strlen 10 0xfd ramp ≡ done 3
strlen_lem_example = strlen_lem 10 3 0xfd ramp (omega arith) refl λ i l e. omega (arith, l, e)
