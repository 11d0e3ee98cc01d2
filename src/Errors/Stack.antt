-- ===== src/Errors/Stack.antt =====
-- What the error stack keeps.
use mathlib.Core.Path.{ap₂}
use octiron.Base.{◌*◌, ◌/◌, ◌%◌, ◌^◌, ◌≤◌, ◌<◌, ◌≡◌, ◌≢◌, ◌∙◌, ◌↔◌, sym, true, arith, bit_or}
use octiron.Base.Bits.{bit_and_mask, bit_or-mod, bit_or-halves, le-bit_or}
use octiron.Number.{u64, ◌<<<◌}
use octiron.Errors.{ErrorCode, success, code, Error, push, pop, top, is_err, empty_error}

code-lt : (c : ErrorCode) → code c < 256
code-lt c = ground arith

code_pos : (c : ErrorCode) → c ≢ success → 1 ≤ code c
code_pos c h = ground arith

top-push : (e : Error) (c : ErrorCode) → top (push e c) ≡ bit_or (e * 2 % 256) (code c)
unfolding top push
top-push e c =
    bit_and_mask 8 _ ∙ bit_or-mod 8 _ (code c) ∙ ap₂ bit_or (omega arith) (omega (arith, code-lt c))

pop-push : (e : Error) (c : ErrorCode) → e < 2 ^ 63 → pop (push e c) ≡ bit_or e (code c / 2)
unfolding pop push
pop-push e c h = ground (arith, bit_or-halves (u64 (e <<< 1)) (code c))

-- `push` never hides an error: on any stack, the new top is an error when the code is one.
pub push-is_err : (e : Error) (c : ErrorCode) → c ≢ success → is_err (push e c) ≡ true
unfolding is_err
push-is_err e c ne = ground (arith, top-push e c, le-bit_or (e * 2 % 256) (code c), code_pos c ne)

-- Half of a code of 2 or more is not lost in the empty stack.
empty_half : (c : ErrorCode) → 2 ≤ code c → bit_or empty_error (code c / 2) ≢ empty_error
empty_half c h = λ e. absurd (ground (arith, e, h, le-bit_or empty_error (code c / 2)))

-- What `push` and then `top` or `pop` really give: the shift is by one bit and not by one byte. On a
-- stack below 2 ^ 63 the new top is the code or-ed over twice the low byte of the old stack, and `pop`
-- gives the old stack with half of the code or-ed in. So the old stack comes back exactly if half of the
-- code adds no bit to it, and never on the empty stack when the code is 2 or more.
pub push_overlaps :
    (e : Error) (c : ErrorCode)
    → e < 2 ^ 63
    → (top (push e c) ≡ bit_or (e * 2 % 256) (code c))
      × (pop (push e c) ≡ bit_or e (code c / 2))
      × (pop (push e c) ≡ e ↔ bit_or e (code c / 2) ≡ e)
      × (2 ≤ code c → pop (push empty_error c) ≢ empty_error)
push_overlaps e c h = (
  top-push e c,
  pop-push e c h,
  (λ p. sym (pop-push e c h) ∙ p, λ p. pop-push e c h ∙ p),
  λ l p. empty_half c l (sym (pop-push empty_error c (omega arith)) ∙ p),
)
