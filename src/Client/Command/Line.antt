-- ===== src/Client/Command/Line.antt =====
-- How a line is taken apart, and which lines end the client.
use mathlib.Core.Path.{subst}
use ggs.Prelude.{
  ℕ, suc, ◌-◌, ◌≡◌, refl, sym, ap, ap₂, ◌∙◌, Bool, true, false, none, some, [], ◌∷◌, ◌++◌, ◌==◌,
  ltb, length, take, drop, ◌||◌, arith, Bool-cases, inl, inr, ◌⊎◌, length-append,
  take-append_length,
}
use ggs.Prelude.Map.{bytes_eq, bytes_beq, bytes_beq_iff, lookup, insert}
use ggs.Client.Command.{
  Text, is_space, trim_left, put_front, trim_right, trim_space, index, split_at, split_line,
  split_names, Commands, Messages, register_names, register_cmd, exec, exec_trimmed, exec_split,
  init_commands, help_cmd, exit_cmd, send_req_cmd,
}

abbrev pub AreSpaces : Text → Type 0
AreSpaces [] = Unit {0}
AreSpaces (c ∷ s) = (is_space c ≡ true) × AreSpaces s

abbrev pub NoSpaces : Text → Type 0
NoSpaces [] = Unit {0}
NoSpaces (c ∷ s) = (is_space c ≡ false) × NoSpaces s

-- A word: at least one character, and no space.
abbrev pub IsWord : Text → Type 0
IsWord [] = ⊥
IsWord (c ∷ s) = NoSpaces (c ∷ s)

-- Its last character is no space.
abbrev pub EndsFull : Text → Type 0
EndsFull [] = ⊥
EndsFull (c ∷ []) = is_space c ≡ false
EndsFull (c ∷ d ∷ s) = EndsFull (d ∷ s)

trim_left-append : (pre s : Text) → AreSpaces pre → trim_left (pre ++ s) ≡ trim_left s
unfolding trim_left
trim_left-append [] s h = refl
trim_left-append (c ∷ pre) s h = rw (h.0) (trim_left-append pre s h.1)

trim_right-AreSpaces : (s : Text) → AreSpaces s → trim_right s ≡ []
unfolding trim_right
trim_right-AreSpaces [] h = refl
trim_right-AreSpaces (c ∷ s) h = rw (trim_right, trim_right-AreSpaces s h.1, h.0) refl

trim_right-append : (s post : Text) → EndsFull s → AreSpaces post → trim_right (s ++ post) ≡ s
unfolding trim_right
trim_right-append [] post e h = elim e [ ]
trim_right-append (c ∷ []) post e h = rw (trim_right, trim_right-AreSpaces post h, e) refl
trim_right-append (c ∷ d ∷ s) post e h = ap (put_front c) (trim_right-append (d ∷ s) post e h)

-- The spaces around a text that begins and ends with something else are trimmed.
trim_space-append :
    (pre post : Text) (c : ℕ) (s : Text)
    → AreSpaces pre
    → AreSpaces post
    → is_space c ≡ false
    → EndsFull (c ∷ s)
    → trim_space (pre ++ ((c ∷ s) ++ post)) ≡ c ∷ s
unfolding trim_left
trim_space-append pre post c s a b e f =
    ap trim_right (trim_left-append pre ((c ∷ s) ++ post) a ∙ rw (trim_left, e) refl)
    ∙ trim_right-append (c ∷ s) post f b

index-word : (w rest : Text) → NoSpaces w → index b' ' (w ++ (b' ' ∷ rest)) ≡ some (length w)
unfolding index is_space
index-word [] rest h = refl
index-word (c ∷ w) rest h =
    let other : (c == b' ') ≡ false = ground (arith, h.0) in
    rw (index, other, index-word w rest h.1) refl

index-NoSpaces : (w : Text) → NoSpaces w → index b' ' w ≡ none
unfolding index is_space
index-NoSpaces [] h = refl
index-NoSpaces (c ∷ w) h =
    let other : (c == b' ') ≡ false = ground (arith, h.0) in
    rw (index, other, index-NoSpaces w h.1) refl

drop-word : (w rest : Text) (x : ℕ) → drop (suc (length w)) (w ++ (x ∷ rest)) ≡ rest
drop-word [] rest x = refl
drop-word (c ∷ w) rest x = drop-word w rest x

split_line-word : (w : Text) → NoSpaces w → split_line w ≡ (w, [])
split_line-word w h = ap (λ o. split_at o w) (index-NoSpaces w h)

split_at_inside :
    (n : ℕ) (line : Text)
    → ltb 0 n ≡ true
    → ltb n (length line - 1) ≡ true
    → split_at (some n) line ≡ (take n line, drop (suc n) line)
split_at_inside n line e f = rw (e, f) refl

split_line-args :
    (c : ℕ) (w : Text) (d : ℕ) (args : Text)
    → NoSpaces (c ∷ w)
    → split_line ((c ∷ w) ++ (b' ' ∷ d ∷ args)) ≡ (c ∷ w, d ∷ args)
split_line-args c w d args h =
    let line : Text = (c ∷ w) ++ (b' ' ∷ d ∷ args) in
    let inside : ltb (length (c ∷ w)) (length line - 1) ≡ true =
      ground (arith, length-append (c ∷ w) (b' ' ∷ d ∷ args)) in
    ap (λ o. split_at o line) (index-word (c ∷ w) (d ∷ args) h)
    ∙ split_at_inside (length (c ∷ w)) line (ground arith) inside
    ∙ ap₂ (λ a b. (a, b)) (take-append_length (length (c ∷ w)) (c ∷ w) (b' ' ∷ d ∷ args) refl)
        (drop-word (c ∷ w) (d ∷ args) b' ')

NoSpaces-EndsFull : (c : ℕ) (w : Text) → NoSpaces (c ∷ w) → EndsFull (c ∷ w)
NoSpaces-EndsFull c [] h = h.0
NoSpaces-EndsFull c (d ∷ w) h = NoSpaces-EndsFull d w h.1

EndsFull-append : (w : Text) (c d : ℕ) (s : Text) → EndsFull (d ∷ s) → EndsFull (w ++ (c ∷ d ∷ s))
EndsFull-append [] c d s e = e
EndsFull-append (x ∷ []) c d s e = e
EndsFull-append (x ∷ y ∷ w) c d s e = EndsFull-append (y ∷ w) c d s e

module _ {S : Type 0} (cs : Commands S) (s : S) (pre post : Text) (a : AreSpaces pre)
    (b : AreSpaces post) where
  -- A line that is one word, spaces around it or not, is that command without arguments.
  pub exec-word : (w : Text) → IsWord w → exec cs (pre ++ (w ++ post)) s ≡ exec_split cs (w, []) s
  exec-word [] h = elim h [ ]
  exec-word (c ∷ w) h =
      ap (λ line. exec_trimmed cs line s)
        (trim_space-append pre post c w a b h.0 (NoSpaces-EndsFull c w h))
      ∙ ap (λ x. exec_split cs x s) (split_line-word (c ∷ w) h)

  -- Of a line that is a word, a space and a text that does not end in a space, the text is what the
  -- command gets.
  pub exec-args :
      (w args : Text)
      → IsWord w
      → EndsFull args
      → exec cs (pre ++ ((w ++ (b' ' ∷ args)) ++ post)) s ≡ exec_split cs (w, args) s
  exec-args [] args h e = elim h [ ]
  exec-args (c ∷ w) [] h e = elim e [ ]
  exec-args (c ∷ w) (d ∷ args) h e =
      ap (λ line. exec_trimmed cs line s)
        (trim_space-append pre post c (w ++ (b' ' ∷ d ∷ args)) a b h.0
          (EndsFull-append (c ∷ w) b' ' d args e))
      ∙ ap (λ x. exec_split cs x s) (split_line-args c w d args h)

abbrev pub is_exit : Text → Bool
is_exit w =
    bytes_beq (b'e' ∷ b'x' ∷ b'i' ∷ b't' ∷ []) w
    || bytes_beq (b'q' ∷ b'u' ∷ b'i' ∷ b't' ∷ []) w
    || bytes_beq (b'q' ∷ []) w

bytes-cases : (k w : Text) → (bytes_beq k w ≡ false) ⊎ (k ≡ w)
bytes-cases k w = elim (Bool-cases (bytes_beq k w)) [
  | inl e ↦ inr ((bytes_beq_iff k w).0 e)
  | inr e ↦ inl e
]

some_injective : {A : Type 0} {x y : A} → some x ≡ some y → x ≡ y
some_injective {x = x} h = ap (λ o. elim o [ none ↦ x | some z ↦ z ]) h

module _ {S : Type 0} (ms : Messages S) where
  -- The commands that `init` registers.
  abbrev pub registered : Commands S
  registered = record {
    cmd_list = help_cmd ms ∷ exit_cmd ms ∷ send_req_cmd ms ∷ [];
    cmd_exec_map =
        ((b'h' ∷ b'e' ∷ b'l' ∷ b'p' ∷ []), (help_cmd ms).exec)
        ∷ ((b'h' ∷ []), (help_cmd ms).exec)
        ∷ ((b'?' ∷ []), (help_cmd ms).exec)
        ∷ ((b'e' ∷ b'x' ∷ b'i' ∷ b't' ∷ []), (exit_cmd ms).exec)
        ∷ ((b'q' ∷ b'u' ∷ b'i' ∷ b't' ∷ []), (exit_cmd ms).exec)
        ∷ ((b'q' ∷ []), (exit_cmd ms).exec)
        ∷ ((b's' ∷ b'e' ∷ b'n' ∷ b'd' ∷ b'r' ∷ b'e' ∷ b'q' ∷ []), (send_req_cmd ms).exec)
        ∷ [];
  }

  init_commands_lem : init_commands ms ≡ some registered
  unfolding init_commands register_cmd register_names split_names lookup insert
  init_commands_lem = refl

  abbrev Exits : Text → S → Text → Type 0
  Exits args s w = (exec_split registered (w, args) s).0 ≡ is_exit w

  exec_split_exits : (w args : Text) (s : S) → (exec_split registered (w, args) s).0 ≡ is_exit w
  unfolding lookup
  exec_split_exits w args s = elim (bytes-cases (b'h' ∷ b'e' ∷ b'l' ∷ b'p' ∷ []) w) [
    | inr e ↦ subst (Exits args s) e refl
    | inl e0 ↦ elim (bytes-cases (b'h' ∷ []) w) [
      | inr e ↦ subst (Exits args s) e refl
      | inl e1 ↦ elim (bytes-cases (b'?' ∷ []) w) [
        | inr e ↦ subst (Exits args s) e refl
        | inl e2 ↦ elim (bytes-cases (b'e' ∷ b'x' ∷ b'i' ∷ b't' ∷ []) w) [
          | inr e ↦ subst (Exits args s) e refl
          | inl e3 ↦ elim (bytes-cases (b'q' ∷ b'u' ∷ b'i' ∷ b't' ∷ []) w) [
            | inr e ↦ subst (Exits args s) e refl
            | inl e4 ↦ elim (bytes-cases (b'q' ∷ []) w) [
              | inr e ↦ subst (Exits args s) e refl
              | inl e5 ↦
                  elim (bytes-cases (b's' ∷ b'e' ∷ b'n' ∷ b'd' ∷ b'r' ∷ b'e' ∷ b'q' ∷ []) w) [
                    | inr e ↦ subst (Exits args s) e refl
                    | inl e6 ↦ rw (exec_split, is_exit, e0, e1, e2, e3, e4, e5, e6) refl
                  ]
            ]
          ]
        ]
      ]
    ]
  ]

  -- A line that is a word and what its command gets, spaces around it or not, ends the client exactly
  -- when the word is `exit`, `quit` or `q`.
  exec_exits :
      (pre post w args : Text) (s : S) (cs : Commands S)
      → init_commands ms ≡ some cs
      → AreSpaces pre
      → AreSpaces post
      → IsWord w
      → EndsFull args
      → ((exec cs (pre ++ ((w ++ (b' ' ∷ args)) ++ post)) s).0 ≡ is_exit w)
        × ((exec cs (pre ++ (w ++ post)) s).0 ≡ is_exit w)
  exec_exits pre post w args s cs i a b h e =
      subst
        (λ x.
          ((exec x (pre ++ ((w ++ (b' ' ∷ args)) ++ post)) s).0 ≡ is_exit w)
          × ((exec x (pre ++ (w ++ post)) s).0 ≡ is_exit w))
        (some_injective (sym init_commands_lem ∙ i))
        (
          ap (λ r. r.0) (exec-args registered s pre post a b w args h e)
              ∙ exec_split_exits w args s,
          ap (λ r. r.0) (exec-word registered s pre post a b w h) ∙ exec_split_exits w [] s,
        )
