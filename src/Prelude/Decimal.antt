-- ===== src/Prelude/Decimal.antt =====
-- Decimal text of an integer, as `strconv.FormatInt(n, 10)` and the verb `%d` print it.
use Prim.Native.Nat.{ℕ, zero, suc, ◌+◌, ◌-◌, ◌*◌, ◌/◌, ◌%◌, ◌<◌}
use mathlib.Core.Path.{◌≡◌, sym, ap, ◌∙◌}
use mathlib.Core.Logic.{inl, inr}
use mathlib.Core.Bool.{false}
use mathlib.Core.List.{List, [], ◌∷◌}
use native.Mathlib.Omega.{arith}
use ggs.Prelude.Tests.{ltb, ◌==◌, if◌then◌else◌, Bool-cases}
use ggs.Prelude.Int.{ℤ, pos, negsuc}

-- The digits of `n` in front of `out`, with one round of fuel for each digit at least.
digits : ℕ → ℕ → List ℕ → List ℕ
digits zero n out = out
digits (suc f) n out =
    let rest = digits f (n / 10) ((b'0' + n % 10) ∷ out) in
    if ltb n 10 then (b'0' + n) ∷ out else rest

decimal : ℕ → List ℕ
unfolding digits
decimal n = digits (suc n) n []

unfoldable pub format_int : ℤ → List ℕ
unfolding decimal
format_int (pos n) = decimal n
format_int (negsuc n) = b'-' ∷ decimal (suc n)

scan : ℕ → List ℕ → ℕ
scan acc [] = acc
scan acc (c ∷ s) = scan (acc * 10 + (c - b'0')) s

parse_int : List ℕ → ℤ
parse_int [] = pos 0
parse_int (c ∷ s) = if c == b'-' then negsuc (scan 0 s - 1) else pos (scan 0 (c ∷ s))

scan-digits : (f n : ℕ) (out : List ℕ) → n < f → scan 0 (digits f n out) ≡ scan n out
unfolding digits scan
scan-digits zero n out h = absurd (omega arith)
scan-digits (suc f) n out h = elim (Bool-cases (ltb n 10)) [
  | inl e ↦ rw e (ap (λ k. scan k out) (omega arith))
  | inr e ↦ rw e (
      scan-digits f (n / 10) ((b'0' + n % 10) ∷ out) (ground arith)
      ∙ ap (λ k. scan k out) (omega arith))
]

digits_head :
    (f n : ℕ) (out : List ℕ)
    → n < f
    → (c : ℕ) × (s : List ℕ) × (digits f n out ≡ c ∷ s) × ((c == b'-') ≡ false)
unfolding digits
digits_head zero n out h = absurd (omega arith)
digits_head (suc f) n out h = elim (Bool-cases (ltb n 10)) [
  | inl e ↦ (b'0' + n, out, rw e, ground arith)
  | inr e ↦ rw e (digits_head f (n / 10) ((b'0' + n % 10) ∷ out) (ground arith))
]

parse_int-nonneg :
    (t : List ℕ) {c : ℕ} {s : List ℕ}
    → t ≡ c ∷ s
    → (c == b'-') ≡ false
    → parse_int t ≡ pos (scan 0 t)
unfolding parse_int
parse_int-nonneg t e h = rw e (rw h)

-- The text of an integer determines it.
parse-format_int : (n : ℤ) → parse_int (format_int n) ≡ n
unfolding format_int scan
parse-format_int (pos n) =
    let (c, s, e, h) = digits_head (suc n) n [] (omega arith) in
    parse_int-nonneg (decimal n) e h ∙ ap pos (scan-digits (suc n) n [] (omega arith))
parse-format_int (negsuc n) =
    unfold parse_int in ap negsuc (omega (arith, scan-digits (suc (suc n)) (suc n) []))

pub format_int-injective : (a b : ℤ) → format_int a ≡ format_int b → a ≡ b
format_int-injective a b h = sym (parse-format_int a) ∙ ap parse_int h ∙ parse-format_int b
