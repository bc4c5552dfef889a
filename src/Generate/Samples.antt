-- ===== src/Generate/Samples.antt =====
-- A file of two messages, and the theorems at work on it.
use ggs.Prelude.{
  ◌≡◌, refl, true, false, inl, inr, some, none, List, [], ◌∷◌, ◌++◌, if◌then◌else◌, ok,
}
use ggs.Prelude.Text.{Text, span}
use ggs.Generate.{
  is_registrable_message_name, DirEntry, proto_suffix, proto_files, sort_files, insert_file,
  names_of_files, contains, scan, match_message, parse_proto_message_names,
  parse_registrable_message_names_in_dir,
}
use ggs.Generate.Names.{IsSorted, count, parse_registrable_message_names_in_dir_lem}
use ggs.Generate.Scan.{IsFiller, Message, AreMessages, source, parse_proto_message_names-source}

abbrev a_req : Text
a_req = b'A' ∷ b'R' ∷ b'e' ∷ b'q' ∷ []

abbrev b_push : Text
b_push = b'B' ∷ b'P' ∷ b'u' ∷ b's' ∷ b'h' ∷ []

-- A body of one field.
abbrev message_of : Text → Message
message_of name = record {
  spaces = b' ' ∷ [];
  name = name;
  gap = b' ' ∷ [];
  body = 10 ∷ b' ' ∷ b'm' ∷ 10 ∷ b'}' ∷ 10 ∷ [];
}

abbrev sample_messages : List Message
sample_messages = message_of b_push ∷ message_of a_req ∷ []

abbrev sample_filler : Text
sample_filler = b'/' ∷ b'm' ∷ 10 ∷ 10 ∷ []

sample_filler-IsFiller : IsFiller true sample_filler
sample_filler-IsFiller = (inr refl, (inl refl, (inr refl, (inr refl, refl))))

sample_messages-AreMessages : AreMessages sample_messages
sample_messages-AreMessages = (
  record {
    some_space = refl;
    are_spaces = (refl, tt);
    name_first = refl;
    name_chars = (refl, (refl, (refl, (refl, (refl, tt)))));
    gap_spaces = (refl, tt);
    filler = (inl refl, (inr refl, (inl refl, (inl refl, (inr refl, (inl refl, refl))))));
  },
  (
    record {
      some_space = refl;
      are_spaces = (refl, tt);
      name_first = refl;
      name_chars = (refl, (refl, (refl, (refl, tt))));
      gap_spaces = (refl, tt);
      filler = (inl refl, (inr refl, (inl refl, (inl refl, (inr refl, (inl refl, refl))))));
    },
    tt,
  ),
)

parse_proto_message_names-source_example :
    parse_proto_message_names (sample_filler ++ source sample_messages) ≡ b_push ∷ a_req ∷ []
parse_proto_message_names-source_example =
    parse_proto_message_names-source sample_filler sample_messages sample_filler-IsFiller
      sample_messages-AreMessages

abbrev sample_dir : List DirEntry
sample_dir =
    record { name = b'x' ∷ proto_suffix; is_dir = false; content = some (source sample_messages) }
    ∷ record { name = b'd' ∷ []; is_dir = true; content = none }
    ∷ []

dir_test : names_of_files (sort_files (proto_files sample_dir)) ≡ ok (b_push ∷ a_req ∷ [])
unfolding names_of_files sort_files insert_file proto_files scan match_message span
dir_test = refl

parse_registrable_message_names_in_dir_lem_example :
    (ns : List Text) × (parse_registrable_message_names_in_dir sample_dir ≡ ok ns)
    × IsSorted ns
    × ((a : Text)
        → count a ns ≡ (
            if is_registrable_message_name a
            then (if contains a (b_push ∷ a_req ∷ []) then 1 else 0)
            else 0))
parse_registrable_message_names_in_dir_lem_example =
    parse_registrable_message_names_in_dir_lem sample_dir (b_push ∷ a_req ∷ []) dir_test
