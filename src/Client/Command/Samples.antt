-- ===== src/Client/Command/Samples.antt =====
-- Lines that a user may type, and the theorems at work on them.
use ggs.Prelude.{◌≡◌, refl, true, some, List, [], ◌∷◌, ◌++◌, ◌↔◌}
use ggs.Prelude.Map.{lookup, insert}
use ggs.Client.Command.{
  Text, Messages, init_commands, register_cmd, register_names, split_names, match_args, ends_body,
  is_space,
}
use ggs.Client.Command.Line.{AreSpaces, IsWord, EndsFull, registered}
use ggs.Client.Command.Args.{IsArgs, match_args_iff}

abbrev sample_messages : Messages (List Text)
sample_messages = record {
  MessageType = Text;
  find_message_by_name = λ name. some name;
  is_registered = λ t. true;
  unmarshal = λ t body. some body;
  send_req = λ m s. m ∷ s;
}

abbrev quit : Text
quit = b'q' ∷ b'u' ∷ b'i' ∷ b't' ∷ []

abbrev now : Text
now = b'n' ∷ b'o' ∷ b'w' ∷ []

registered_test : init_commands sample_messages ≡ some (registered sample_messages)
unfolding init_commands register_cmd register_names split_names lookup insert
registered_test = refl

spaces_test : AreSpaces (9 ∷ 32 ∷ [])
unfolding is_space
spaces_test = (refl, (refl, tt))

quit_test : IsWord quit
unfolding is_space
quit_test = (refl, (refl, (refl, (refl, tt))))

now_test : EndsFull now
unfolding is_space
now_test = refl

abbrev heartbeat : Text
heartbeat = b'B' ∷ b'e' ∷ b'a' ∷ b't' ∷ []

abbrev sample_body : Text
sample_body = b'{' ∷ b'1' ∷ b'}' ∷ []

sample-IsArgs : IsArgs (heartbeat ++ ((b' ' ∷ 9 ∷ []) ++ sample_body)) heartbeat sample_body
unfolding ends_body
sample-IsArgs = record {
  spaces = b' ' ∷ 9 ∷ [];
  whole = refl;
  name_chars = (refl, (refl, (refl, (refl, tt))));
  name_first = refl;
  are_spaces = (refl, (refl, tt));
  some_space = refl;
  in_braces = refl;
}

match_args_iff_example :
    (match_args (heartbeat ++ ((b' ' ∷ 9 ∷ []) ++ sample_body)) ≡ some (heartbeat, sample_body))
    ↔ IsArgs (heartbeat ++ ((b' ' ∷ 9 ∷ []) ++ sample_body)) heartbeat sample_body
match_args_iff_example =
    match_args_iff (heartbeat ++ ((b' ' ∷ 9 ∷ []) ++ sample_body)) heartbeat sample_body
