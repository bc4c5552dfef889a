-- ===== src/Prelude/Text.antt =====
-- Texts as lists of code points or bytes, and what the regular expressions and the suffix tests of the
-- program need of them.
use Prim.Native.Nat.{ℕ, ◌-◌}
use mathlib.Core.Path.{◌≡◌, refl, ap}
use mathlib.Core.Bool.{Bool, true, false, ◌&&◌, ◌||◌}
use mathlib.Core.Logic.{inl, inr}
use mathlib.Core.List.{List, [], ◌∷◌, ◌++◌}
use ggs.Prelude.Tests.{leb, ◌==◌, if◌then◌else◌, Bool-cases}
use ggs.Prelude.Lists.{length, drop}
use ggs.Prelude.Map.{bytes_beq}

abbrev pub Text : Type 0
Text = List ℕ

-- The longest beginning of a text whose characters pass a test, and the rest.
unfoldable pub span : (ℕ → Bool) → Text → Text × Text
span p [] = ([], [])
span p (c ∷ s) = let rest = span p s in if p c then (c ∷ rest.0, rest.1) else ([], c ∷ s)

abbrev pub is_letter : ℕ → Bool
is_letter c = (leb b'A' c && leb c b'Z') || (leb b'a' c && leb c b'z')

-- `\s` of a regular expression
abbrev pub is_regex_space : ℕ → Bool
is_regex_space c = (leb 9 c && leb c 10) || (leb 12 c && leb c 13) || (c == 32)

abbrev pub has_suffix : Text → Text → Bool
has_suffix s suffix = bytes_beq (drop (length s - length suffix) s) suffix

abbrev pub All : (ℕ → Bool) → Text → Type 0
All p [] = Unit {0}
All p (c ∷ s) = (p c ≡ true) × All p s

-- The text does not begin with a character that passes.
abbrev pub Stops : (ℕ → Bool) → Text → Type 0
Stops p [] = Unit {0}
Stops p (c ∷ s) = p c ≡ false

module _ (p : ℕ → Bool) where
  pub span-All : (s : Text) → All p (span p s).0
  unfolding span
  span-All [] = tt
  span-All (c ∷ s) = elim (Bool-cases (p c)) [
    | inl e ↦ rw (span, e) (e, span-All s)
    | inr e ↦ rw (span, e) tt
  ]

  pub span-append : (s : Text) → s ≡ (span p s).0 ++ (span p s).1
  unfolding span
  span-append [] = refl
  span-append (c ∷ s) = elim (Bool-cases (p c)) [
    | inl e ↦ rw (span, e) (ap (◌∷◌ c) (span-append s))
    | inr e ↦ rw (span, e) refl
  ]

  pub span_whole : (a b : Text) → All p a → Stops p b → span p (a ++ b) ≡ (a, b)
  unfolding span
  span_whole [] [] h k = refl
  span_whole [] (c ∷ b) h k = rw (span, k) refl
  span_whole (c ∷ a) b h k = rw (span, h.0, span_whole a b h.1 k) refl
