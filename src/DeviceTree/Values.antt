-- ===== src/DeviceTree/Values.antt =====
-- What is printed of a property's value.
use Prim.Native.String.{String}
use octiron.Base.{
  ℕ, zero, suc, ◌+◌, ◌*◌, ◌%◌, ◌^◌, ◌<◌, ◌≡◌, ◌≢◌, inl, inr, ◌∙◌, refl, ap, true, false, ◌==◌,
  if◌then◌else◌, Bool-cases, done, fault, List, [], ◌∷◌, ◌++◌, map, arith,
}
use octiron.Number.{Bytes}
use octiron.View.{View, at}
use octiron.Printer.{
  Sent, by_fn, by_global, print_unsigned, print_hex, print_str_view, print_view_loop,
}
use octiron.Printer.Laws.{Digits, printed, print_hex_lem}
use octiron.DeviceTree.{Data, DeviceStatus}
use octiron.DeviceTree.Names.{codes}
use octiron.DeviceTree.Print.{
  char_of, indent, text_of, number_line, hex_line, print_data, print_texts, print_more_texts,
}
use octiron.DeviceTree.Says.{
  spaces, ended, unset_text, HasEmpty, before_empty, IsNumberLine, IsHexLine, IsPrintable, bytes,
  bytes_of, comma_texts, joined, Says,
}

pub indent-spaces : (depth : ℕ) → indent depth ≡ spaces (2 * depth)
indent-spaces zero = refl
indent-spaces (suc depth) =
    ap (λ t. 32 ∷ 32 ∷ t) (indent-spaces depth)
    ∙ ap spaces {x = suc (suc (2 * depth))} {y = 2 * suc depth} (omega arith)

chars_back : (xs : List ℕ) → map char_of (map by_fn xs) ≡ xs
chars_back [] = refl
chars_back (x ∷ xs) = ap (λ ys. x ∷ ys) (chars_back xs)

number_text :
    (n : ℕ)
    → n < 2 ^ 64
    → (d : Digits 10 n) × (s : List Sent) × (print_unsigned n ≡ done s) × (map char_of s ≡ d.chars)
unfolding print_unsigned
number_text zero h = (
  record { chars = 48 ∷ []; all_digits = ((omega arith, refl), tt); value_back = refl },
  by_global 48 ∷ [],
  refl,
  refl,
)
number_text (suc n) h =
    let p = printed (suc n) (omega arith) h in (p.0, map by_fn p.0.chars, p.1, chars_back p.0.chars)

hex_text :
    (n : ℕ)
    → n < 2 ^ 64
    → (d : Digits 16 n) × (s : List Sent) × (print_hex n ≡ done s)
      × (map char_of s ≡ 48 ∷ 120 ∷ d.chars)
unfolding print_hex
hex_text zero h = (
  record { chars = 48 ∷ []; all_digits = ((omega arith, refl), tt); value_back = refl },
  by_fn 48 ∷ by_fn 120 ∷ by_fn 48 ∷ [],
  refl,
  refl,
)
hex_text (suc n) h =
    let p = print_hex_lem (suc n) (omega arith) h in
    (
      p.0,
      by_fn 48 ∷ by_fn 120 ∷ map by_fn p.0.chars,
      p.1,
      ap (λ t. 48 ∷ 120 ∷ t) (chars_back p.0.chars),
    )

unset_line :
    (n : ℕ) (v : View) (m : Bytes)
    → n ≢ 4
    → (if n == 0
        then done (ended "OKAY")
        else if n == 1
        then done (ended "DISABLED")
        else if n == 2
        then done (ended "RESERVED")
        else if n == 3
        then done (ended "FAIL")
        else if n == 4
        then fault
        else done [])
      ≡ done (unset_text n)
unset_line zero v m h = refl
unset_line (suc zero) v m h = refl
unset_line (suc (suc zero)) v m h = refl
unset_line (suc (suc (suc zero))) v m h = refl
unset_line (suc (suc (suc (suc n)))) v m h =
    let other : (suc (suc (suc (suc n))) == 4) ≡ false = ground (arith, h) in
    rw other (ground arith)

module _ (m : Bytes) where
  loop_bytes :
      (left i : ℕ) (sv : View)
      → map char_of (print_view_loop left i sv m) ≡ bytes m (sv.ptr + i) left
  unfolding print_view_loop at
  loop_bytes zero i sv = refl
  loop_bytes (suc left) i sv =
      ap (λ t. m (sv.ptr + i) ∷ t)
        (loop_bytes left (i + 1) sv
          ∙ ap (λ p. bytes m p left) {x = sv.ptr + (i + 1)} {y = sv.ptr + i + 1} (omega arith))

  pub text_bytes : (v : View) → text_of m v ≡ bytes_of m v
  unfolding print_str_view
  text_bytes v =
      loop_bytes v.size 0 v ∙ ap (λ p. bytes m p v.size) {x = v.ptr + 0} {y = v.ptr} (omega arith)

  more_texts :
      (vs : List View)
      → HasEmpty vs
      → print_more_texts m vs ≡ done (comma_texts m (before_empty vs))
  unfolding print_more_texts
  more_texts [] h = absurd h
  more_texts (v ∷ vs) h = elim (Bool-cases (v.size == 0)) [
    | inl e ↦ rw (e, print_more_texts) refl
    | inr e ↦ elim h [
      | inl z ↦ absurd (ground (arith, z, e))
      | inr more ↦ rw (e, print_more_texts) (rw (more_texts vs more, text_bytes v) refl)
    ]
  ]

  all_texts : (vs : List View) → HasEmpty vs → print_texts m vs ≡ done (joined m (before_empty vs))
  unfolding print_texts
  all_texts [] h = absurd h
  all_texts (v ∷ vs) h = elim (Bool-cases (v.size == 0)) [
    | inl e ↦ rw (e, print_texts) refl
    | inr e ↦ elim h [
      | inl z ↦ absurd (ground (arith, z, e))
      | inr more ↦ rw (e, print_texts) (rw (more_texts vs more, text_bytes v) refl)
    ]
  ]

  -- A value and what it says.
  abbrev pub Value : Data → Type 0
  Value x = (t : List ℕ) × (print_data m x ≡ done t) × Says m x t

  number_says :
      (before : String) (n : ℕ) (behind : String)
      → n < 2 ^ 64
      → (t : List ℕ) × (number_line m before n behind ≡ done t) × IsNumberLine before n behind t
  number_says before n behind h =
      let (d, s, runs, chars) = number_text n h in
      (
        codes before ++ map char_of s ++ ended behind,
        rw runs refl,
        (d, ap (λ t. codes before ++ t ++ ended behind) chars),
      )

  hex_says : (n : ℕ) → n < 2 ^ 64 → (t : List ℕ) × (hex_line m n ≡ done t) × IsHexLine n t
  hex_says n h =
      let (d, s, runs, chars) = hex_text n h in
      (map char_of s ++ 10 ∷ [], rw runs refl, (d, ap (λ t. t ++ 10 ∷ []) chars))

  pub data_says : (x : Data) → IsPrintable x → Value x
  unfolding print_data
  data_says (Data.raw v) h = number_says "RAW (length: " v.size ")" h
  data_says (Data.compatible vs) h =
      (codes "[" ++ joined m (before_empty vs) ++ ended "]", rw (all_texts vs h) refl, refl)
  data_says (Data.model v) h = (text_of m v ++ 10 ∷ [], refl, ap (λ t. t ++ 10 ∷ []) (text_bytes v))
  data_says (Data.phandle n) h = hex_says n h
  data_says (Data.status DeviceStatus.okay reason) h = (ended "OKAY", refl, refl)
  data_says (Data.status DeviceStatus.disabled reason) h = (ended "DISABLED", refl, refl)
  data_says (Data.status DeviceStatus.reserved reason) h = (ended "RESERVED", refl, refl)
  data_says (Data.status DeviceStatus.fail reason) h = (ended "FAIL", refl, refl)
  data_says (Data.status DeviceStatus.fail_with_reason reason) h = (
    codes "FAIL: " ++ text_of m reason ++ 10 ∷ [],
    refl,
    ap (λ t. codes "FAIL: " ++ t ++ 10 ∷ []) (text_bytes reason),
  )
  data_says (Data.status_unset v) h =
      (unset_text (v.ptr % 2 ^ 32), unset_line (v.ptr % 2 ^ 32) v m h, refl)
  data_says (Data.address_cells n) h = number_says "" n "" h
  data_says (Data.size_cells n) h = number_says "" n "" h
  data_says (Data.dma_coherence true) h = (ended "true", refl, refl)
  data_says (Data.dma_coherence false) h = (ended "false", refl, refl)
  data_says (Data.device_type v) h =
      (text_of m v ++ 10 ∷ [], refl, ap (λ t. t ++ 10 ∷ []) (text_bytes v))
  data_says (Data.reg n addresses sizes) h = number_says "REG (" n " pairs)" h
  data_says (Data.ranges n cbus pbus sizes) h = number_says "RANGES (" n " trips)" h
  data_says (Data.virtual_reg n) h = hex_says n h
  data_says (Data.interrupt_parent n) h = hex_says n h
  data_says (Data.interrupt_controller v) h = (ended "true", refl, refl)
  data_says (Data.interrupt_cells n) h = number_says "" n "" h
