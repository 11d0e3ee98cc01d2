-- ===== src/DeviceTree/Names.antt =====
-- The names and texts that the rewriting pass compares with. `str_view::compare` with a literal runs
-- over the literal's characters, which are listed here, since the linker chooses where they stand.
use Prim.Native.String.{String}
use octiron.Base.{ℕ, zero, suc, ◌+◌, Bool, true, false, ◌==◌, if◌then◌else◌, List, [], ◌∷◌, length}
use octiron.Base.Int.{ℤ, pos, negsuc, sub_ℕ}
use octiron.Number.{Bytes}
use octiron.View.{View}
use Prim.Native.Char.{code}

abbrev pub codes : String → List ℕ
codes String.[] = []
codes (String.◌∷◌ c s) = code c ∷ codes s

-- The loop of `compare`, with the literal's characters and the bytes of the view that are left.
unfoldable pub compare_text : List ℕ → (left p : ℕ) → Bytes → ℤ
compare_text [] left p m = sub_ℕ 0 left
compare_text (c ∷ cs) zero p m = sub_ℕ (suc (length cs)) 0
compare_text (c ∷ cs) (suc left) p m =
    let rest = compare_text cs left (p + 1) m in if c == m p then rest else sub_ℕ c (m p)

abbrev pub is_zero : ℤ → Bool
is_zero (pos zero) = true
is_zero (pos (suc n)) = false
is_zero (negsuc n) = false

-- `str_view::compare(literal, view) == 0`.
unfoldable pub is_text : String → View → Bytes → Bool
unfolding compare_text
is_text s v m = is_zero (compare_text (codes s) v.size v.ptr m)

-- What the first pass does with a property, by its name.
pub data Kind : Type 0 where
  compatible model phandle status address_cells size_cells : Kind
  dma_coherent dma_noncoherent device_type virtual_reg : Kind
  interrupt_parent interrupt_cells interrupt_controller untouched unhandled : Kind

unfoldable pub kind_of : View → Bytes → Kind
kind_of name m =
    if is_text "compatible" name m
    then compatible
    else if is_text "model" name m
    then model
    else if is_text "phandle" name m
    then phandle
    else if is_text "status" name m
    then status
    else if is_text "#address-cells" name m
    then address_cells
    else if is_text "#size-cells" name m
    then size_cells
    else if is_text "dma-coherent" name m
    then dma_coherent
    else if is_text "dma-noncoherent" name m
    then dma_noncoherent
    else if is_text "device_type" name m
    then device_type
    else if is_text "virtual-reg" name m
    then virtual_reg
    else if is_text "interrupt-parent" name m
    then interrupt_parent
    else if is_text "#interrupt-cells" name m
    then interrupt_cells
    else if is_text "interrupts" name m
    then untouched
    else if is_text "interrupt-map" name m
    then untouched
    else if is_text "interrupt-map-mask" name m
    then untouched
    else if is_text "interrupt-controller" name m
    then interrupt_controller
    else if is_text "regmap" name m
    then untouched
    else if is_text "value" name m
    then untouched
    else if is_text "reg" name m
    then untouched
    else if is_text "ranges" name m
    then untouched
    else if is_text "bus-ranges" name m
    then untouched
    else unhandled
