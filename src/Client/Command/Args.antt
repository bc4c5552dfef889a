-- ===== src/Client/Command/Args.antt =====
-- The arguments of the command `sendreq`.
use mathlib.Core.Path.{subst}
use ggs.Prelude.{
  ℕ, ◌≡◌, refl, sym, ap, ◌∙◌, Bool, true, false, Option, none, some, [], ◌∷◌, ◌++◌, ◌==◌, length,
  ◌-◌, drop, if◌then◌else◌, arith, Bool-cases, inl, inr, ◌↔◌, length-append,
}
use ggs.Prelude.Text.{All, Stops, span-All, span-append, span_whole}
use ggs.Prelude.Map.{bytes_beq, bytes_eq}
use ggs.Client.Command.{
  Text, span, is_name_char, is_regex_space, is_body, is_name, nonempty_text, match_args, has_suffix,
  req_name, Messages, send_req_command, send_parts, send_body,
}

-- A message's name, space, and a body in braces.
pub record IsArgs (s name body : Text) : Type 0 where
  pub spaces : Text
  pub whole : s ≡ name ++ (spaces ++ body)
  pub name_chars : All is_name_char name
  pub name_first : is_name name ≡ true
  pub are_spaces : All is_regex_space spaces
  pub some_space : nonempty_text spaces ≡ true
  pub in_braces : is_body body ≡ true

abbrev matched : Text × Text → Text × Text → Option (Text × Text)
matched (name, rest) (spaces, body) =
    if is_name name
    then (if nonempty_text spaces then (if is_body body then some (name, body) else none) else none)
    else none

body-Stops : (body : Text) → is_body body ≡ true → Stops is_regex_space body
body-Stops [] h = tt
body-Stops (c ∷ s) h = elim (Bool-cases (c == b'{')) [
  | inl e ↦ ground arith
  | inr e ↦ absurd (ground arith)
]

spaces-Stops :
    (spaces body : Text)
    → All is_regex_space spaces
    → nonempty_text spaces ≡ true
    → Stops is_name_char (spaces ++ body)
spaces-Stops [] body h k = absurd (ground arith)
spaces-Stops (c ∷ s) body h k = ground (arith, h.0)

IsArgs-match_args : (s name body : Text) → IsArgs s name body → match_args s ≡ some (name, body)
unfolding match_args
IsArgs-match_args s name body i =
    let first : span is_name_char s ≡ (name, i.spaces ++ body) =
      ap (span is_name_char) i.whole
      ∙ span_whole is_name_char name (i.spaces ++ body) i.name_chars
          (spaces-Stops i.spaces body i.are_spaces i.some_space) in
    let second : span is_regex_space (i.spaces ++ body) ≡ (i.spaces, body) =
      span_whole is_regex_space i.spaces body i.are_spaces (body-Stops body i.in_braces) in
    ap (λ x. matched x (span is_regex_space x.1)) first
    ∙ ap (matched (name, i.spaces ++ body)) second
    ∙ rw (i.name_first, i.some_space, i.in_braces) refl

matched-some :
    (x y : Text × Text) (r : Text × Text)
    → matched x y ≡ some r
    → (is_name x.0 ≡ true) × (nonempty_text y.0 ≡ true) × (is_body y.1 ≡ true) × ((x.0, y.1) ≡ r)
matched-some (name, rest) (spaces, body) r h = elim (Bool-cases (is_name name)) [
  | inr a ↦ absurd (ground arith)
  | inl a ↦ elim (Bool-cases (nonempty_text spaces)) [
    | inr b ↦ absurd (ground arith)
    | inl b ↦ elim (Bool-cases (is_body body)) [
      | inr c ↦ absurd (ground arith)
      | inl c ↦ (a, b, c, ground arith)
    ]
  ]
]

match_args-IsArgs : (s name body : Text) → match_args s ≡ some (name, body) → IsArgs s name body
unfolding match_args
match_args-IsArgs s name body h =
    let first = span is_name_char s in
    let second = span is_regex_space first.1 in
    let (a, b, c, e) = matched-some first second (name, body) h in
    subst (λ r. IsArgs s r.0 r.1) e
      (record {
        spaces = second.0;
        whole =
            span-append is_name_char s
            ∙ ap (λ r. first.0 ++ r) (span-append is_regex_space first.1);
        name_chars = span-All is_name_char s;
        name_first = a;
        are_spaces = span-All is_regex_space first.1;
        some_space = b;
        in_braces = c;
      })

-- The expression matches exactly the texts that are a message's name, space, and a body in braces, and
-- its groups are that name and that body.
pub match_args_iff : (s name body : Text) → (match_args s ≡ some (name, body)) ↔ IsArgs s name body
match_args_iff s name body = (match_args-IsArgs s name body, IsArgs-match_args s name body)

abbrev pub req : Text
req = b'R' ∷ b'e' ∷ b'q' ∷ []

drop_exact : (name suffix : Text) → drop (length name) (name ++ suffix) ≡ suffix
drop_exact [] suffix = refl
drop_exact (c ∷ name) suffix = drop_exact name suffix

has_suffix-append : (name : Text) → has_suffix (name ++ req) req ≡ true
has_suffix-append name =
    let n : length (name ++ req) - length req ≡ length name =
      ground (arith, length-append name req) in
    ap (λ k. bytes_beq (drop k (name ++ req)) req) n
    ∙ ap (λ s. bytes_beq s req) (drop_exact name req)

req_name-append :
    (name : Text) → has_suffix name req ≡ false → req_name (name ++ req) ≡ req_name name
req_name-append name h = rw (has_suffix-append name, h) refl

is_name-append : (name : Text) → is_name name ≡ true → is_name (name ++ req) ≡ true
is_name-append [] h = absurd (ground arith)
is_name-append (c ∷ name) h = h

All-append : (p : ℕ → Bool) (a b : Text) → All p a → All p b → All p (a ++ b)
All-append p [] b h k = k
All-append p (c ∷ a) b h k = (h.0, All-append p a b h.1 k)

-- A message may be named with `Req` at its end or without: the command does the same.
send_req_command-req_name :
    {S : Type 0} (ms : Messages S) (args name body : Text) (s : S)
    → has_suffix name req ≡ false
    → (i : IsArgs args name body)
    → send_req_command ms ((name ++ req) ++ (i.spaces ++ body)) s ≡ send_req_command ms args s
unfolding send_req_command
send_req_command-req_name ms args name body s h i =
    let long : IsArgs ((name ++ req) ++ (i.spaces ++ body)) (name ++ req) body = record {
      spaces = i.spaces;
      whole = refl;
      name_chars = All-append is_name_char name req i.name_chars (refl, (refl, (refl, tt)));
      name_first = is_name-append name i.name_first;
      are_spaces = i.are_spaces;
      some_space = i.some_space;
      in_braces = i.in_braces;
    } in
    ap (λ o. send_parts ms o s) (IsArgs-match_args _ (name ++ req) body long)
    ∙ ap
        (λ n. send_body ms body (ms.find_message_by_name ((b'c' ∷ b'2' ∷ b's' ∷ b'.' ∷ []) ++ n)) s)
        (req_name-append name h)
    ∙ sym (ap (λ o. send_parts ms o s) (IsArgs-match_args args name body i))
