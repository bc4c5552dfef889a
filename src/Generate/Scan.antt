-- ===== src/Generate/Scan.antt =====
-- The names that the tool finds in a proto file.
use ggs.Prelude.{
  ℕ, suc, ◌+◌, ◌-◌, ◌≡◌, refl, ap, ◌∙◌, ◌⊎◌, inl, inr, Bool, true, false, none, some, List, [], ◌∷◌,
  ◌++◌, append_assoc, ◌==◌, length, length-append, if◌then◌else◌, arith,
}
use ggs.Prelude.Text.{Text, is_regex_space, span, All, Stops, span_whole}
use ggs.Generate.{
  message_keyword, strip_prefix, is_ident_char, is_ident, is_nonempty, match_opening, match_name,
  match_spaces, match_keyword, match_message, scan, parse_proto_message_names,
}

-- Text between messages: no line of it begins with an `m`, and it ends with a line.
abbrev pub IsFiller : Bool → Text → Type 0
IsFiller at_start [] = at_start ≡ true
IsFiller at_start (c ∷ s) = ((at_start ≡ false) ⊎ ((c == b'm') ≡ false)) × IsFiller (c == 10) s

-- A message: its name, the spaces around it, and the text from its brace to the next message.
pub record Message : Type 0 where
  pub spaces : Text
  pub name : Text
  pub gap : Text
  pub body : Text

pub record IsMessage (m : Message) : Type 0 where
  pub some_space : is_nonempty m.spaces ≡ true
  pub are_spaces : All is_regex_space m.spaces
  pub name_first : is_ident m.name ≡ true
  pub name_chars : All is_ident_char m.name
  pub gap_spaces : All is_regex_space m.gap
  pub filler : IsFiller false m.body

abbrev pub AreMessages : List Message → Type 0
AreMessages [] = Unit {0}
AreMessages (m ∷ ms) = IsMessage m × AreMessages ms

-- A message as it stands in the file.
abbrev pub opening : Message → Text
opening m = message_keyword ++ (m.spaces ++ (m.name ++ m.gap))

abbrev tail_of : Text → Text
tail_of [] = []
tail_of (c ∷ s) = s

abbrev pub source : List Message → Text
source [] = []
source (m ∷ ms) = opening m ++ (b'{' ∷ (m.body ++ source ms))

abbrev pub names : List Message → List Text
names [] = []
names (m ∷ ms) = m.name ∷ names ms

strip_prefix-append : (p s : Text) → strip_prefix p (p ++ s) ≡ some s
strip_prefix-append [] s = refl
strip_prefix-append (c ∷ p) s = ground (arith, strip_prefix-append p s)

no_message : (c : ℕ) (s : Text) → (c == b'm') ≡ false → match_message (c ∷ s) ≡ none
unfolding match_message
no_message c s h = ground arith

-- A filler is passed over.
scan-filler :
    (at_start : Bool) (body rest : Text)
    → IsFiller at_start body
    → scan at_start 0 (body ++ rest) ≡ scan true 0 rest
unfolding scan
scan-filler at_start [] rest h = ap (λ b. scan b 0 rest) h
scan-filler at_start (c ∷ body) rest (inl e, h) = rw (scan, e) (scan-filler (c == 10) body rest h)
scan-filler false (c ∷ body) rest (inr e, h) = scan-filler (c == 10) body rest h
scan-filler true (c ∷ body) rest (inr e, h) =
    rw (scan, no_message c (body ++ rest) e) (scan-filler (c == 10) body rest h)

-- What is left of a match, which ends with a brace, is skipped.
scan-skip :
    (at_start : Bool) (p rest : Text)
    → scan at_start (suc (length p)) (p ++ (b'{' ∷ rest)) ≡ scan false 0 rest
unfolding scan
scan-skip at_start [] rest = refl
scan-skip at_start (c ∷ p) rest = scan-skip (c == 10) p rest

name-Stops : (name rest : Text) → is_ident name ≡ true → Stops is_regex_space (name ++ rest)
name-Stops [] rest h = absurd (ground arith)
name-Stops (c ∷ s) rest h = ground arith

gap-Stops : (gap rest : Text) → All is_regex_space gap → Stops is_ident_char (gap ++ (b'{' ∷ rest))
gap-Stops [] rest h = refl
gap-Stops (c ∷ s) rest h = ground (arith, h.0)

abbrev behind : Message → Text → Text
behind m rest = m.spaces ++ (m.name ++ (m.gap ++ (b'{' ∷ rest)))

opening-append :
    (m : Message) (rest : Text) → opening m ++ (b'{' ∷ rest) ≡ message_keyword ++ behind m rest
opening-append m rest =
    ap (λ t. message_keyword ++ t)
      (append_assoc m.spaces (m.name ++ m.gap) (b'{' ∷ rest)
        ∙ ap (λ t. m.spaces ++ t) (append_assoc m.name m.gap (b'{' ∷ rest)))

length-opening :
    (m : Message)
    → length message_keyword + length m.spaces + length m.name + length m.gap + 1
      ≡ suc (length (opening m))
length-opening m =
    omega (arith, length-append m.spaces (m.name ++ m.gap), length-append m.name m.gap)

match_message-opening :
    (m : Message) (rest : Text)
    → IsMessage m
    → match_message (opening m ++ (b'{' ∷ rest)) ≡ some (m.name, suc (length (opening m)))
unfolding match_message
match_message-opening m rest i =
    ap match_message (opening-append m rest)
    ∙ ap match_keyword (strip_prefix-append message_keyword (behind m rest))
    ∙ ap match_spaces (
        span_whole is_regex_space m.spaces (m.name ++ (m.gap ++ (b'{' ∷ rest))) i.are_spaces
          (name-Stops m.name (m.gap ++ (b'{' ∷ rest)) i.name_first))
    ∙ ap
        (λ b.
          if b
          then match_name m.spaces (span is_ident_char (m.name ++ (m.gap ++ (b'{' ∷ rest))))
          else none)
        i.some_space
    ∙ ap (match_name m.spaces) (
        span_whole is_ident_char m.name (m.gap ++ (b'{' ∷ rest)) i.name_chars
          (gap-Stops m.gap rest i.gap_spaces))
    ∙ ap
        (λ b.
          if b
          then match_opening m.spaces m.name (span is_regex_space (m.gap ++ (b'{' ∷ rest)))
          else none)
        i.name_first
    ∙ ap (match_opening m.spaces m.name)
        (span_whole is_regex_space m.gap (b'{' ∷ rest) i.gap_spaces refl)
    ∙ ap (λ n. some (m.name, n)) (length-opening m)

scan_matched :
    (c : ℕ) (s name : Text) (n : ℕ)
    → match_message (c ∷ s) ≡ some (name, suc n)
    → scan true 0 (c ∷ s) ≡ name ∷ scan (c == 10) n s
unfolding scan
scan_matched c s name n h =
    ap
      (λ o. elim o as (λ _. List Text) [
        | none ↦ scan (c == 10) 0 s
        | some (x, k) ↦ x ∷ scan (c == 10) (k - 1) s
      ])
      h
    ∙ (let back : suc n - 1 ≡ n = omega arith in ap (λ k. name ∷ scan (c == 10) k s) back)

scan-opening :
    (m : Message) (rest : Text)
    → IsMessage m
    → scan true 0 (opening m ++ (b'{' ∷ rest)) ≡ m.name ∷ scan false 0 rest
scan-opening m rest i =
    scan_matched b'm' (tail_of (opening m) ++ (b'{' ∷ rest)) m.name (length (opening m))
      (match_message-opening m rest i)
    ∙ ap (◌∷◌ m.name) (scan-skip false (tail_of (opening m)) rest)

scan-source :
    (ms : List Message) (at_start : Bool) (filler : Text)
    → AreMessages ms
    → IsFiller at_start filler
    → scan at_start 0 (filler ++ source ms) ≡ names ms
unfolding scan
scan-source [] at_start filler a f = scan-filler at_start filler [] f
scan-source (m ∷ ms) at_start filler a f =
    scan-filler at_start filler (source (m ∷ ms)) f
    ∙ scan-opening m (m.body ++ source ms) a.0
    ∙ ap (◌∷◌ m.name) (scan-source ms false m.body a.1 a.0.filler)

-- In a file of messages, one behind the other with anything between that begins no line with an `m`,
-- the tool finds the names of exactly these messages, in their order.
pub parse_proto_message_names-source :
    (filler : Text) (ms : List Message)
    → IsFiller true filler
    → AreMessages ms
    → parse_proto_message_names (filler ++ source ms) ≡ names ms
parse_proto_message_names-source filler ms f a = scan-source ms true filler a f
