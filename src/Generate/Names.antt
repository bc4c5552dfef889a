-- ===== src/Generate/Names.antt =====
-- The names that are registered: sorted, and each once.
use mathlib.Core.Path.{subst}
use ggs.Prelude.{
  ℕ, ◌+◌, ◌≡◌, refl, sym, ap, ◌∙◌, true, false, List, [], ◌∷◌, if◌then◌else◌, arith, Bool-cases,
  inl, inr, ok,
}
use ggs.Prelude.Map.{bytes_eq, bytes_beq, bytes_beq_iff, beq_refl}
use ggs.Prelude.Text.{Text}
use ggs.Generate.{
  is_registrable_message_name, text_le, insert_string, sort_strings, contains, add_names, DirEntry,
  proto_files, sort_files, names_of_files, parse_registrable_message_names_in_dir,
}

text_le_trans : (s t u : Text) → text_le s t ≡ true → text_le t u ≡ true → text_le s u ≡ true
unfolding text_le
text_le_trans [] t u h k = refl
text_le_trans (c ∷ s) [] u h k = absurd (ground arith)
text_le_trans (c ∷ s) (d ∷ t) [] h k = absurd (ground arith)
text_le_trans (c ∷ s) (d ∷ t) (e ∷ u) h k = ground (arith, text_le_trans s t u)

text_le_total : (s t : Text) → text_le s t ≡ false → text_le t s ≡ true
unfolding text_le
text_le_total [] t h = absurd (ground arith)
text_le_total (c ∷ s) [] h = refl
text_le_total (c ∷ s) (d ∷ t) h = ground (arith, text_le_total s t)

abbrev pub AllFrom : Text → List Text → Type 0
AllFrom x [] = Unit {0}
AllFrom x (y ∷ ys) = (text_le x y ≡ true) × AllFrom x ys

abbrev pub IsSorted : List Text → Type 0
IsSorted [] = Unit {0}
IsSorted (x ∷ xs) = AllFrom x xs × IsSorted xs

AllFrom-le : (x y : Text) (l : List Text) → text_le x y ≡ true → AllFrom y l → AllFrom x l
AllFrom-le x y [] h a = tt
AllFrom-le x y (z ∷ l) h a = (text_le_trans x y z h a.0, AllFrom-le x y l h a.1)

AllFrom-insert_string :
    (x y : Text) (l : List Text) → text_le x y ≡ true → AllFrom x l → AllFrom x (insert_string y l)
unfolding insert_string
AllFrom-insert_string x y [] h a = (h, tt)
AllFrom-insert_string x y (z ∷ l) h a = elim (Bool-cases (text_le y z)) [
  | inl e ↦ rw (insert_string, e) (h, a)
  | inr e ↦ rw (insert_string, e) (a.0, AllFrom-insert_string x y l h a.1)
]

insert_string-IsSorted : (x : Text) (l : List Text) → IsSorted l → IsSorted (insert_string x l)
unfolding insert_string
insert_string-IsSorted x [] s = (tt, tt)
insert_string-IsSorted x (y ∷ l) s = elim (Bool-cases (text_le x y)) [
  | inl e ↦ rw (insert_string, e) ((e, AllFrom-le x y l e s.0), s)
  | inr e ↦
      rw (insert_string, e)
        (AllFrom-insert_string y x l (text_le_total x y e) s.0, insert_string-IsSorted x l s.1)
]

sort_strings-IsSorted : (l : List Text) → IsSorted (sort_strings l)
unfolding sort_strings
sort_strings-IsSorted [] = tt
sort_strings-IsSorted (x ∷ l) = insert_string-IsSorted x (sort_strings l) (sort_strings-IsSorted l)

-- How often a name occurs.
abbrev pub count : Text → List Text → ℕ
count a [] = 0
count a (y ∷ ys) = (if bytes_beq a y then 1 else 0) + count a ys

count-insert_string : (a x : Text) (l : List Text) → count a (insert_string x l) ≡ count a (x ∷ l)
unfolding insert_string
count-insert_string a x [] = refl
count-insert_string a x (y ∷ l) = elim (Bool-cases (text_le x y)) [
  | inl e ↦ rw (insert_string, e) refl
  | inr e ↦ rw (insert_string, e, count-insert_string a x l) (omega arith)
]

count-sort_strings : (a : Text) (l : List Text) → count a (sort_strings l) ≡ count a l
unfolding sort_strings
count-sort_strings a [] = refl
count-sort_strings a (x ∷ l) =
    count-insert_string a x (sort_strings l)
    ∙ ap (λ n. (if bytes_beq a x then 1 else 0) + n) (count-sort_strings a l)

-- Once, if the name is registrable and among `l` and not seen before.
abbrev once : Text → List Text → List Text → ℕ
once a seen l =
    if is_registrable_message_name a
    then (if contains a seen then 0 else (if contains a l then 1 else 0))
    else 0

count-add_names : (a : Text) (seen l : List Text) → count a (add_names seen l) ≡ once a seen l
unfolding add_names contains
count-add_names a seen [] = ground arith
count-add_names a seen (name ∷ l) = elim (Bool-cases (bytes_beq a name)) [
  | inl e ↦
      let q = (bytes_beq_iff a name).0 e in
      subst (λ x. count x (add_names seen (name ∷ l)) ≡ once x seen (name ∷ l)) (sym q)
        (ground
          (arith, beq_refl name, count-add_names name seen l, count-add_names name (name ∷ seen) l))
  | inr e ↦ ground (arith, e, count-add_names a seen l, count-add_names a (name ∷ seen) l)
]

-- When every proto file can be read, the names for a directory are sorted, and each name that has one
-- of the suffixes and is among those of the messages in the files occurs exactly once, and no other.
pub parse_registrable_message_names_in_dir_lem :
    (entries : List DirEntry) (all : List Text)
    → names_of_files (sort_files (proto_files entries)) ≡ ok all
    → (names : List Text) × (parse_registrable_message_names_in_dir entries ≡ ok names)
      × IsSorted names
      × ((a : Text)
          → count a names
            ≡ (if is_registrable_message_name a then (if contains a all then 1 else 0) else 0))
unfolding parse_registrable_message_names_in_dir contains
parse_registrable_message_names_in_dir_lem entries all h = (
  sort_strings (add_names [] all),
  rw (parse_registrable_message_names_in_dir, h) refl,
  sort_strings-IsSorted (add_names [] all),
  λ a. count-sort_strings a (add_names [] all) ∙ count-add_names a [] all,
)
