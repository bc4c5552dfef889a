-- ===== src/Client/Command.antt =====
-- The command line of the client (app/client/internal/mode/client/cmd.go, and exec in state.go).
--
-- A text is the list of its code points. What a command works on is a parameter.
pub mod Line
pub mod Args
mod Samples
use ggs.Prelude.{
  ℕ, zero, suc, ◌-◌, Bool, true, false, Option, none, some, List, [], ◌∷◌, ◌++◌, ◌==◌, ltb, leb,
  length, take, drop, if◌then◌else◌, ◌&&◌, ◌||◌,
}
pub use ggs.Prelude.Text.{Text, is_letter, is_regex_space, has_suffix}
unfoldable pub use ggs.Prelude.Text.{span}
use ggs.Prelude.Map.{Map, bytes_eq, bytes_beq, lookup, insert}

-- `unicode.IsSpace`, which `strings.TrimSpace` uses.
unfoldable pub is_space : ℕ → Bool
is_space c =
    (leb 9 c && leb c 13)
    || (c == 32)
    || (c == 133)
    || (c == 160)
    || (c == 5760)
    || (leb 8192 c && leb c 8202)
    || (c == 8232)
    || (c == 8233)
    || (c == 8239)
    || (c == 8287)
    || (c == 12288)

-- `strings.TrimSpace`
unfoldable pub trim_left : Text → Text
trim_left [] = []
trim_left (c ∷ s) = let rest = trim_left s in if is_space c then rest else c ∷ s

abbrev pub put_front : ℕ → Text → Text
put_front c [] = if is_space c then [] else c ∷ []
put_front c (d ∷ s) = c ∷ d ∷ s

unfoldable pub trim_right : Text → Text
trim_right [] = []
trim_right (c ∷ s) = put_front c (trim_right s)

abbrev pub trim_space : Text → Text
trim_space s = trim_right (trim_left s)

-- `strings.Index` of one character
unfoldable pub index : ℕ → Text → Option ℕ
index c [] = none
index c (d ∷ s) =
    let rest = index c s in
    if d == c then some 0 else elim rest [ none ↦ none | some n ↦ some (suc n) ]

-- The command and its arguments in a line that is trimmed.
abbrev pub split_at : Option ℕ → Text → Text × Text
split_at none line = (line, [])
split_at (some n) line =
    if ltb 0 n
    then (take n line, if ltb n (length line - 1) then drop (suc n) line else [])
    else (line, [])

abbrev pub split_line : Text → Text × Text
split_line line = split_at (index b' ' line) line

-- `strings.Split(name, "|")`
unfoldable pub split_names : Text → List Text
split_names [] = [] ∷ []
split_names (c ∷ s) =
    let rest = split_names s in
    if c == b'|'
    then [] ∷ rest
    else (elim rest [ [] ↦ (c ∷ []) ∷ [] | name ∷ names ↦ (c ∷ name) ∷ names ])

-- A command; its `exec` says whether the client exits.
pub record Cmd (S : Type 0) : Type 0 where
  pub name : Text
  pub exec : Text → S → Bool × S

-- `cmdList` and `cmdExecMap`
pub record Commands (S : Type 0) : Type 0 where
  pub cmd_list : List (Cmd S)
  pub cmd_exec_map : Map Text (Text → S → Bool × S)

module _ {S : Type 0} where
  -- `none` is the panic on a name that is taken.
  unfoldable pub register_names :
      (Text → S → Bool × S)
      → List Text
      → Map Text (Text → S → Bool × S)
      → Option (Map Text (Text → S → Bool × S))
  register_names exec [] m = some m
  register_names exec (name ∷ names) m = elim (lookup name m) [
    | some _ ↦ none
    | none ↦ register_names exec names (insert name exec m)
  ]

  -- `registerCmd`
  unfoldable pub register_cmd : List (Cmd S) → Commands S → Option (Commands S)
  register_cmd [] cs = some cs
  register_cmd (c ∷ rest) cs = elim (register_names c.exec (split_names c.name) cs.cmd_exec_map) [
    | none ↦ none
    | some m ↦ register_cmd rest (record { cmd_list = cs.cmd_list ++ (c ∷ []); cmd_exec_map = m })
  ]

  abbrev pub exec_split : Commands S → Text × Text → S → Bool × S
  exec_split cs (cmd, args) s = elim (lookup cmd cs.cmd_exec_map) [
    | none ↦ (false, s)
    | some c ↦ c args s
  ]

  abbrev pub exec_trimmed : Commands S → Text → S → Bool × S
  exec_trimmed cs [] s = (false, s)
  exec_trimmed cs (c ∷ line) s = exec_split cs (split_line (c ∷ line)) s

  -- `exec`: whether the client exits.
  abbrev pub exec : Commands S → Text → S → Bool × S
  exec cs line s = exec_trimmed cs (trim_space line) s

abbrev pub is_name_char : ℕ → Bool
is_name_char c = is_letter c || (leb b'0' c && leb c b'9') || (c == b'_')

-- `.*}` up to the end of the text, where `.` is no line feed.
unfoldable pub ends_body : Text → Bool
ends_body [] = false
ends_body (c ∷ []) = c == b'}'
ends_body (c ∷ d ∷ s) = let rest = ends_body (d ∷ s) in if c == 10 then false else rest

abbrev pub is_body : Text → Bool
is_body [] = false
is_body (c ∷ s) = if c == b'{' then ends_body s else false

abbrev pub is_name : Text → Bool
is_name [] = false
is_name (c ∷ s) = is_letter c

abbrev pub nonempty_text : Text → Bool
nonempty_text [] = false
nonempty_text (c ∷ s) = true

-- The two groups of `cmdSendReqArgsRegex` in a text that it matches.
unfoldable pub match_args : Text → Option (Text × Text)
match_args s =
    let (name, rest) = span is_name_char s in
    let (spaces, body) = span is_regex_space rest in
    if is_name name
    then (if nonempty_text spaces then (if is_body body then some (name, body) else none) else none)
    else none

-- The registry of message types, protobuf's JSON, and the sending of a request.
pub record Messages (S : Type 0) : Type 1 where
  pub MessageType : Type 0
  pub find_message_by_name : Text → Option MessageType
  pub is_registered : MessageType → Bool
  pub unmarshal : MessageType → Text → Option (List ℕ)
  pub send_req : List ℕ → S → S

-- What a command prints: how it is used, what is wrong, or nothing but the answer to its request.
pub data Printed : Type 0 where
  usage no_type not_registered bad_body answer : Printed

abbrev pub req_name : Text → Text
req_name msg =
    if has_suffix msg (b'R' ∷ b'e' ∷ b'q' ∷ []) then msg else msg ++ (b'R' ∷ b'e' ∷ b'q' ∷ [])

module _ {S : Type 0} (ms : Messages S) where
  open ms use {MessageType}

  abbrev pub send_body : Text → Option MessageType → S → Printed × S
  send_body body none s = (no_type, s)
  send_body body (some mt) s =
      if ms.is_registered mt
      then (elim (ms.unmarshal mt body) [
        | none ↦ (bad_body, s)
        | some req ↦ (answer, ms.send_req req s)
      ])
      else (not_registered, s)

  abbrev pub send_parts : Option (Text × Text) → S → Printed × S
  send_parts none s = (usage, s)
  send_parts (some (msg, body)) s =
      send_body body (ms.find_message_by_name ((b'c' ∷ b'2' ∷ b's' ∷ b'.' ∷ []) ++ req_name msg)) s

  -- What the command `sendreq` does.
  unfoldable pub send_req_command : Text → S → Printed × S
  send_req_command args s = send_parts (match_args args) s

  abbrev pub help_cmd : Cmd S
  help_cmd = record {
    name = b'h' ∷ b'e' ∷ b'l' ∷ b'p' ∷ b'|' ∷ b'h' ∷ b'|' ∷ b'?' ∷ [];
    exec = λ args s. (false, s);
  }

  abbrev pub exit_cmd : Cmd S
  exit_cmd = record {
    name = b'e' ∷ b'x' ∷ b'i' ∷ b't' ∷ b'|' ∷ b'q' ∷ b'u' ∷ b'i' ∷ b't' ∷ b'|' ∷ b'q' ∷ [];
    exec = λ args s. (true, s);
  }

  abbrev pub send_req_cmd : Cmd S
  send_req_cmd = record {
    name = b's' ∷ b'e' ∷ b'n' ∷ b'd' ∷ b'r' ∷ b'e' ∷ b'q' ∷ [];
    exec = λ args s. (false, (send_req_command args s).1);
  }

  -- The registrations of `init`.
  unfoldable pub init_commands : Option (Commands S)
  init_commands =
      register_cmd (help_cmd ∷ exit_cmd ∷ send_req_cmd ∷ [])
        (record { cmd_list = []; cmd_exec_map = [] })
