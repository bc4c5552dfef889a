-- ===== src/Generate.antt =====
-- The tool that writes the registration of protocol messages
-- (internal/infra/actor/protocol/tools/gen_register/main.go).
--
-- A text is the list of its bytes. The file system is an argument, and the formatting of Go code, a
-- library's, a parameter.
pub mod Scan
pub mod Names
mod Samples
use ggs.Prelude.{
  ℕ, zero, suc, ◌+◌, ◌-◌, ◌≤◌, Bool, true, false, Option, none, some, List, [], ◌∷◌, ◌++◌, ◌==◌,
  ltb, leb, ◌&&◌, ◌||◌, length, if◌then◌else◌, Result, ok, err, map,
}
use ggs.Prelude.Map.{bytes_eq, bytes_beq}
use ggs.Prelude.Text.{Text, has_suffix, is_letter, is_regex_space, span}

-- `registrableMessageSuffixes`: Req, Resp, Push, Ntf
abbrev pub registrable_message_suffixes : List Text
registrable_message_suffixes =
    (b'R' ∷ b'e' ∷ b'q' ∷ [])
    ∷ (b'R' ∷ b'e' ∷ b's' ∷ b'p' ∷ [])
    ∷ (b'P' ∷ b'u' ∷ b's' ∷ b'h' ∷ [])
    ∷ (b'N' ∷ b't' ∷ b'f' ∷ [])
    ∷ []

abbrev pub has_any_suffix : List Text → Text → Bool
has_any_suffix [] name = false
has_any_suffix (suffix ∷ rest) name =
    let later = has_any_suffix rest name in if has_suffix name suffix then true else later

-- `isRegistrableMessageName`
abbrev pub is_registrable_message_name : Text → Bool
is_registrable_message_name name = has_any_suffix registrable_message_suffixes name

-- `commonMessageRegistrations`, with the two bits of a target.
pub record CommonMessage : Type 0 where
  pub name : Text
  pub c2s : Bool
  pub s2s : Bool

abbrev pub common_message_registrations : List CommonMessage
common_message_registrations =
    record { name = b'E' ∷ b'r' ∷ b'r' ∷ b'o' ∷ b'r' ∷ []; c2s = true; s2s = true } ∷ []

-- `strings.HasPrefix` and the rest behind it.
abbrev pub strip_prefix : Text → Text → Option Text
strip_prefix [] s = some s
strip_prefix (c ∷ p) [] = none
strip_prefix (c ∷ p) (d ∷ s) = let rest = strip_prefix p s in if c == d then rest else none

abbrev pub message_keyword : Text
message_keyword = b'm' ∷ b'e' ∷ b's' ∷ b's' ∷ b'a' ∷ b'g' ∷ b'e' ∷ []

abbrev pub is_ident_start : ℕ → Bool
is_ident_start c = is_letter c || (c == b'_')

abbrev pub is_ident_char : ℕ → Bool
is_ident_char c = is_letter c || (leb b'0' c && leb c b'9') || (c == b'_')

abbrev pub is_ident : Text → Bool
is_ident [] = false
is_ident (c ∷ s) = is_ident_start c

abbrev pub opens : Text → Bool
opens [] = false
opens (c ∷ s) = c == b'{'

abbrev pub is_nonempty : Text → Bool
is_nonempty [] = false
is_nonempty (c ∷ s) = true

-- The name in a match of `message\s+([A-Za-z_][A-Za-z0-9_]*)\s*\{` at the head of a text, and the
-- length of the match.
abbrev pub match_opening : Text → Text → Text × Text → Option (Text × ℕ)
match_opening spaces name (gap, rest) =
    if opens rest
    then some (name, length message_keyword + length spaces + length name + length gap + 1)
    else none

abbrev pub match_name : Text → Text × Text → Option (Text × ℕ)
match_name spaces (name, rest) =
    if is_ident name then match_opening spaces name (span is_regex_space rest) else none

abbrev pub match_spaces : Text × Text → Option (Text × ℕ)
match_spaces (spaces, rest) =
    if is_nonempty spaces then match_name spaces (span is_ident_char rest) else none

abbrev pub match_keyword : Option Text → Option (Text × ℕ)
match_keyword none = none
match_keyword (some rest) = match_spaces (span is_regex_space rest)

unfoldable pub match_message : Text → Option (Text × ℕ)
match_message s = match_keyword (strip_prefix message_keyword s)

-- The names of the matches at the starts of lines, none overlapping the one before: `at_start` says
-- whether a line starts here, and `skip` how much of a match is left.
unfoldable pub scan : Bool → ℕ → Text → List Text
scan at_start skip [] = []
scan at_start (suc skip) (c ∷ s) = scan (c == 10) skip s
scan at_start zero (c ∷ s) =
    let next = scan (c == 10) zero s in
    if at_start
    then (elim (match_message (c ∷ s)) [
      | none ↦ next
      | some (name, n) ↦ let later = scan (c == 10) (n - 1) s in name ∷ later
    ])
    else next

-- `parseProtoMessageNames` of a file that could be read.
abbrev pub parse_proto_message_names : Text → List Text
parse_proto_message_names src = scan true 0 src

-- The order of strings, and `sort.Strings`.
unfoldable pub text_le : Text → Text → Bool
text_le [] t = true
text_le (c ∷ s) [] = false
text_le (c ∷ s) (d ∷ t) =
    let rest = text_le s t in if ltb c d then true else (if c == d then rest else false)

unfoldable pub insert_string : Text → List Text → List Text
insert_string x [] = x ∷ []
insert_string x (y ∷ ys) =
    let rest = insert_string x ys in if text_le x y then x ∷ y ∷ ys else y ∷ rest

unfoldable pub sort_strings : List Text → List Text
sort_strings [] = []
sort_strings (x ∷ xs) = insert_string x (sort_strings xs)

unfoldable pub contains : Text → List Text → Bool
contains x [] = false
contains x (y ∷ ys) = let rest = contains x ys in if bytes_beq x y then true else rest

-- The names that are kept, given those `seen`.
unfoldable pub add_names : List Text → List Text → List Text
add_names seen [] = []
add_names seen (name ∷ names) =
    let skipped = add_names seen names in
    let kept = add_names (name ∷ seen) names in
    if is_registrable_message_name name
    then (if contains name seen then skipped else name ∷ kept)
    else skipped

-- The files of a directory: a name, and the text or that it cannot be read.
pub record DirEntry : Type 0 where
  pub name : Text
  pub is_dir : Bool
  pub content : Option Text

abbrev pub proto_suffix : Text
proto_suffix = b'.' ∷ b'p' ∷ b'r' ∷ b'o' ∷ b't' ∷ b'o' ∷ []

unfoldable pub proto_files : List DirEntry → List DirEntry
proto_files [] = []
proto_files (e ∷ es) =
    let rest = proto_files es in
    if e.is_dir then rest else (if has_suffix e.name proto_suffix then e ∷ rest else rest)

-- Sorting by the path, which is the directory's with the name behind it.
unfoldable pub insert_file : DirEntry → List DirEntry → List DirEntry
insert_file x [] = x ∷ []
insert_file x (y ∷ ys) =
    let rest = insert_file x ys in if text_le x.name y.name then x ∷ y ∷ ys else y ∷ rest

unfoldable pub sort_files : List DirEntry → List DirEntry
sort_files [] = []
sort_files (x ∷ xs) = insert_file x (sort_files xs)

-- All names of the files in their order; an error is the name of a file that cannot be read.
unfoldable pub names_of_files : List DirEntry → Result Text (List Text)
names_of_files [] = ok []
names_of_files (f ∷ fs) =
    let rest = names_of_files fs in
    elim f.content [
      | none ↦ err f.name
      | some src ↦ elim rest [
        | err e ↦ err e
        | ok names ↦ ok (parse_proto_message_names src ++ names)
      ]
    ]

-- `parseRegistrableMessageNamesInDir` of a directory that could be read.
unfoldable pub parse_registrable_message_names_in_dir : List DirEntry → Result Text (List Text)
parse_registrable_message_names_in_dir entries =
    elim (names_of_files (sort_files (proto_files entries))) [
      | err e ↦ err e
      | ok names ↦ ok (sort_strings (add_names [] names))
    ]

pub data Target : Type 0 where
  c2s_target s2s_target : Target

abbrev pub is_for : Target → CommonMessage → Bool
is_for c2s_target m = m.c2s
is_for s2s_target m = m.s2s

abbrev pub common_names : Target → List CommonMessage → List Text
common_names t [] = []
common_names t (m ∷ ms) = let rest = common_names t ms in if is_for t m then m.name ∷ rest else rest

-- `commonMessagesFor`
abbrev pub common_messages_for : Target → List Text
common_messages_for t = sort_strings (common_names t common_message_registrations)

-- The lines of `generateRegisterFile` that register the names of a package.
abbrev pub register_line : Text → Text → Text
register_line pkg name =
    (9 ∷ b'r' ∷ b'e' ∷ b'g' ∷ b'i' ∷ b's' ∷ b't' ∷ b'e' ∷ b'r' ∷ b'(' ∷ b'(' ∷ b'*' ∷ [])
    ++ (pkg
        ++ ((b'.' ∷ []) ++ (name ++ (b')' ∷ b'(' ∷ b'n' ∷ b'i' ∷ b'l' ∷ b')' ∷ b')' ∷ 10 ∷ []))))

abbrev pub register_lines : Text → List Text → Text
register_lines pkg [] = []
register_lines pkg (name ∷ names) = register_line pkg name ++ register_lines pkg names

abbrev pub common_pkg : Text
common_pkg = b'c' ∷ b'o' ∷ b'm' ∷ b'm' ∷ b'o' ∷ b'n' ∷ []

-- The body of the `init` that it writes.
abbrev pub init_body : Text → List Text → List Text → Text
init_body pkg names common = register_lines common_pkg common ++ register_lines pkg names
