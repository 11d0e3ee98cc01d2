-- ===== src/Printer/Tests.antt =====
-- Numbers and a view, printed.
use octiron.Base.{◌≡◌, ◌∷◌, done, map, arith}
use octiron.Base.Int.{pos, negsuc}
use octiron.Printer.{by_fn, print_unsigned, print_signed, print_hex}
use octiron.Printer.Laws.{Digits, print_signed_lem, print_hex_lem}

print_signed_lem_example :
    (d : Digits 10 1203) × (print_unsigned 1203 ≡ done (map by_fn d.chars))
    × (print_signed (pos 1203) ≡ done (map by_fn d.chars))
    × (print_signed (negsuc 1202) ≡ done (by_fn 45 ∷ map by_fn d.chars))
print_signed_lem_example = print_signed_lem 1202 (omega arith)

print_hex_lem_example :
    (d : Digits 16 0xBEEF) × (print_hex 0xBEEF ≡ done (by_fn 48 ∷ by_fn 120 ∷ map by_fn d.chars))
print_hex_lem_example = print_hex_lem 0xBEEF (omega arith) (omega arith)
