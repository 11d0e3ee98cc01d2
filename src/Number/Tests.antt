-- ===== src/Number/Tests.antt =====
-- Alignment and byte order on concrete numbers.
use octiron.Base.{◌+◌, ◌%◌, ◌^◌, ◌≤◌, ◌<◌, ◌≡◌, arith}
use octiron.Number.{align_up, Bytes}
use octiron.Number.Align.{align_up_lem}

align_up_lem_example :
    (align_up 0x1234 (2 ^ 12) % 2 ^ 12 ≡ 0)
    × (0x1234 ≤ align_up 0x1234 (2 ^ 12))
    × (align_up 0x1234 (2 ^ 12) < 0x1234 + 2 ^ 12)
align_up_lem_example = align_up_lem 12 0x1234 (omega arith) (omega arith)

abbrev ramp : Bytes
ramp a = a % 256
