-- ===== src/Printer/Laws.antt =====
-- What is printed, read back.
use native.Mathlib.Nat.{mod-lt, div-add-mod'}
use octiron.Base.{
  ℕ, zero, suc, ◌+◌, ◌-◌, ◌*◌, ◌/◌, ◌%◌, ◌^◌, ◌≤◌, ◌<◌, ◌≡◌, refl, ap, ◌∙◌, ltb, ◌==◌,
  if◌then◌else◌, done, List, [], ◌∷◌, map, All, arith, Bool-cases, inl, inr, some, get_elem?,
}
use octiron.Number.{Bytes}
use octiron.Base.Int.{pos, negsuc}
use octiron.View.{View, at}
use octiron.Printer.{
  by_fn, digit, write_digits, print_unsigned, print_signed, print_hex, print_view_loop,
  print_str_view,
}

-- The number that a digit stands for, and that a text of digits spells behind the number `acc`.
abbrev pub digit_value : ℕ → ℕ
digit_value c = if ltb c 65 then c - 48 else c - 55

abbrev pub spelled : (base acc : ℕ) → List ℕ → ℕ
spelled base acc [] = acc
spelled base acc (c ∷ cs) = spelled base (acc * base + digit_value c) cs

abbrev pub IsDigit : ℕ → ℕ → Type 0
IsDigit base c = (digit_value c < base) × (digit (digit_value c) ≡ c)

-- The characters that are printed for a number.
pub record Digits (base value : ℕ) : Type 0 where
  pub chars : List ℕ
  pub all_digits : All (IsDigit base) chars
  pub value_back : spelled base 0 chars ≡ value

record Written (left base num : ℕ) (buffer : List ℕ) : Type 0 where
  chars : List ℕ
  runs : write_digits left base num buffer ≡ done chars
  all_digits : All (IsDigit base) chars
  value_back : spelled base 0 chars ≡ spelled base num buffer

digit_value-digit : (d : ℕ) → d < 16 → digit_value (digit d) ≡ d
digit_value-digit d h = ground arith

module _ (base : ℕ) (low : 2 ≤ base) (high : base ≤ 16) (halves : (n : ℕ) → n / base ≤ n / 2) where
  write_digits-Written :
      (left num : ℕ) (buffer : List ℕ)
      → num < 2 ^ left
      → All (IsDigit base) buffer
      → Written left base num buffer
  unfolding write_digits
  write_digits-Written zero num buffer h all = record {
    chars = buffer;
    runs = ground (arith, h);
    all_digits = all;
    value_back = ap (λ n. spelled base n buffer) {x = 0} {y = num} (omega (arith, h));
  }
  write_digits-Written (suc left) num buffer h all =
      let small : num % base < base = mod-lt num (omega (arith, low)) in
      let back = digit_value-digit (num % base) (omega (arith, small, high)) in
      let rest : Written left base (num / base) (digit (num % base) ∷ buffer) =
        write_digits-Written left (num / base) (digit (num % base) ∷ buffer)
          (omega (arith, halves num, h)) ((omega (arith, back, small), ap digit back), all) in
      elim (Bool-cases (num == 0)) [
        | inl e ↦ record {
          chars = buffer;
          runs = rw e refl;
          all_digits = all;
          value_back = ap (λ n. spelled base n buffer) {x = 0} {y = num} (ground (arith, e));
        }
        | inr e ↦ record {
          chars = rest.chars;
          runs = rw e rest.runs;
          all_digits = rest.all_digits;
          value_back =
              rest.value_back
              ∙ ap (λ n. spelled base n buffer) (omega (arith, back, div-add-mod' num base));
        }
      ]

decimal : (n : ℕ) → n < 2 ^ 64 → Written 65 10 n []
decimal n h =
    write_digits-Written 10 (omega arith) (omega arith) (λ k. omega arith) 65 n [] (omega arith) tt

hexadecimal : (n : ℕ) → n < 2 ^ 64 → Written 65 16 n []
hexadecimal n h =
    write_digits-Written 16 (omega arith) (omega arith) (λ k. omega arith) 65 n [] (omega arith) tt

pub printed :
    (n : ℕ) → 0 < n → n < 2 ^ 64 → (d : Digits 10 n) × (print_unsigned n ≡ done (map by_fn d.chars))
unfolding print_unsigned
printed n positive h =
    let w = decimal n h in
    (
      record { chars = w.chars; all_digits = w.all_digits; value_back = w.value_back },
      rw w.runs (ground arith),
    )

-- A number from 1 to 2 ^ 63 - 1, unsigned or signed, is printed as decimal digits that spell it, all
-- sent through the function that was handed in, and its negation as a minus sign and the same digits.
-- The buffer is never overrun.
pub print_signed_lem :
    (n : ℕ)
    → suc n < 2 ^ 63
    → (d : Digits 10 (suc n)) × (print_unsigned (suc n) ≡ done (map by_fn d.chars))
      × (print_signed (pos (suc n)) ≡ done (map by_fn d.chars))
      × (print_signed (negsuc n) ≡ done (by_fn 45 ∷ map by_fn d.chars))
unfolding print_signed
print_signed_lem n h =
    let p = printed (suc n) (omega arith) (omega arith) in
    (p.0, p.1, p.1, rw p.1 (ground (arith, h)))

-- A number of at most 64 bits that is not 0 is printed as 0x and hexadecimal digits that spell it;
-- the buffer is never overrun.
pub print_hex_lem :
    (n : ℕ)
    → 0 < n
    → n < 2 ^ 64
    → (d : Digits 16 n) × (print_hex n ≡ done (by_fn 48 ∷ by_fn 120 ∷ map by_fn d.chars))
unfolding print_hex
print_hex_lem n positive h =
    let w = hexadecimal n h in
    (
      record { chars = w.chars; all_digits = w.all_digits; value_back = w.value_back },
      rw w.runs (ground arith),
    )

print_view_loop-get :
    (left i k : ℕ) (sv : View) (m : Bytes)
    → k < left
    → get_elem? (print_view_loop left i sv m) k ≡ some (by_fn (at sv (i + k) m))
unfolding print_view_loop
print_view_loop-get zero i k sv m h = elim h [ ]
print_view_loop-get (suc left) i zero sv m h =
    ap (λ j. some (by_fn (at sv j m))) {x = i} {y = i + 0} (omega arith)
print_view_loop-get (suc left) i (suc k) sv m h =
    print_view_loop-get left (i + 1) k sv m (omega arith)
    ∙ ap (λ j. some (by_fn (at sv j m))) {x = i + 1 + k} {y = i + suc k} (omega arith)

-- A view is printed byte by byte in order: character `k` that is sent is its byte `k`.
pub get_elem-print_str_view :
    (sv : View) (m : Bytes) (k : ℕ)
    → k < sv.size
    → get_elem? (print_str_view sv m) k ≡ some (by_fn (at sv k m))
unfolding print_str_view
get_elem-print_str_view sv m k h =
    print_view_loop-get sv.size 0 k sv m h
    ∙ ap (λ j. some (by_fn (at sv j m))) {x = 0 + k} {y = k} (omega arith)
