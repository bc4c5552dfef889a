-- ===== src/Client/States/Chosen.antt =====
-- The character for which the first state of the client ends.
use ggs.Prelude.{
  ℕ, ◌≡◌, ◌≢◌, refl, sym, ap, ◌∙◌, inl, inr, false, Option, none, some, List, [], ◌∷◌, ◌==◌, ==_iff,
  Bool-cases, Option-cases, arith,
}
use ggs.Client.Command.{Text}
use mathlib.Core.Path.{subst}
use mathlib.Core.List.Memᴰ.{Memᴰ, head, tail}
use ggs.Client.States.{
  CharacterInfo, LoginService, Player, state_login, of_server, first_or_create, login_as, choose,
  with_token, run_init,
}

-- The character that the client logs in with.
pub data IsChosen (l : LoginService) (token : Text) (server_id : ℕ) (list : List CharacterInfo)
    : ℕ → Type 0 where
  existing :
      (v : CharacterInfo)
      → Memᴰ v list
      → v.server_id ≡ server_id
      → IsChosen l token server_id list v.id
  created :
      (id : ℕ)
      → ((v : CharacterInfo) → Memᴰ v list → v.server_id ≢ server_id)
      → l.create_character token server_id ≡ some id
      → IsChosen l token server_id list id

of_server_none :
    (server_id : ℕ) (x : CharacterInfo) (list : List CharacterInfo)
    → of_server server_id (x ∷ list) ≡ []
    → ((x.server_id == server_id) ≡ false) × (of_server server_id list ≡ [])
of_server_none server_id x list h = elim (Bool-cases (x.server_id == server_id)) [
  | inl e ↦ absurd (ground arith)
  | inr e ↦ (e, ground arith)
]

of_server-nil :
    (server_id : ℕ) (list : List CharacterInfo)
    → of_server server_id list ≡ []
    → (v : CharacterInfo) → Memᴰ v list
    → v.server_id ≢ server_id
of_server-nil server_id [] h v m q = elim m [ ]
of_server-nil server_id (x ∷ list) h v (head m) q =
    let other = (of_server_none server_id x list h).0 in
    let same : x.server_id ≡ server_id = sym (ap (λ (c : CharacterInfo). c.server_id) m) ∙ q in
    absurd (ground arith)
of_server-nil server_id (x ∷ list) h v (tail m) q =
    of_server-nil server_id list (of_server_none server_id x list h).1 v m q

of_server_first :
    (server_id : ℕ) (list : List CharacterInfo) (v : CharacterInfo) (vs : List CharacterInfo)
    → of_server server_id list ≡ v ∷ vs
    → Memᴰ v list × (v.server_id ≡ server_id)
of_server_first server_id [] v vs h = absurd (ground arith)
of_server_first server_id (x ∷ list) v vs h = elim (Bool-cases (x.server_id == server_id)) [
  | inl e ↦
      let same : x ≡ v = ground arith in
      (head (sym same), sym (ap (λ (c : CharacterInfo). c.server_id) same) ∙ (==_iff _ _).0 e)
  | inr e ↦ let (m, q) = of_server_first server_id list v vs (ground arith) in (tail m, q)
]

module _ (l : LoginService) (server_id : ℕ) (c c' : Player) where
  -- What came out of the services when the first state ends.
  pub record IsInit : Type 0 where
    pub token : Text
    pub list : List CharacterInfo
    pub id : ℕ
    pub made_token : l.gen_user_token ≡ some token
    pub got_list : l.get_character_list token ≡ some list
    pub chosen : IsChosen l token server_id list id
    pub got_token : l.login_character token id ≡ some c'.agent_token
    pub next : c'.state ≡ state_login

  first_or_create-IsChosen :
      (token : Text) (list : List CharacterInfo) (id : ℕ) (found : List CharacterInfo)
      → of_server server_id list ≡ found
      → first_or_create l token server_id found ≡ some id
      → IsChosen l token server_id list id
  first_or_create-IsChosen token list id [] h q = created id (of_server-nil server_id list h) q
  first_or_create-IsChosen token list id (v ∷ vs) h q =
      let (m, e) = of_server_first server_id list v vs h in
      let same : v.id ≡ id = ground arith in
      subst (IsChosen l token server_id list) same (existing v m e)

  login_as_done :
      (token : Text) (o : Option ℕ)
      → login_as l token c o ≡ some c'
      → (id : ℕ) × (o ≡ some id)
        × (l.login_character token id ≡ some c'.agent_token)
        × (c'.state ≡ state_login)
  login_as_done token none h = absurd (ground arith)
  login_as_done token (some id) h = elim (Option-cases (l.login_character token id)) [
    | inl e ↦ absurd (ground arith)
    | inr (t, e) ↦ (id, refl, ground arith, ground arith)
  ]

  -- When the first state ends without ending the program, the client holds the token for a character
  -- of the wanted server: one of the list, or a new one if the list has none there.
  run_init-IsInit : run_init l server_id c ≡ some c' → IsInit
  unfolding run_init
  run_init-IsInit h = elim (Option-cases l.gen_user_token) [
    | inl e ↦ absurd (ground arith)
    | inr (token, e) ↦ elim (Option-cases (l.get_character_list token)) [
      | inl f ↦ absurd (ground arith)
      | inr (list, f) ↦
          let (id, o, t, n) =
            login_as_done token (first_or_create l token server_id (of_server server_id list)) (
              ap (choose l server_id token c) (sym f)
              ∙ ap (with_token l server_id c) (sym e)
              ∙ h) in
          record {
            token = token;
            list = list;
            id = id;
            made_token = e;
            got_list = f;
            chosen = first_or_create-IsChosen token list id (of_server server_id list) refl o;
            got_token = t;
            next = n;
          }
    ]
  ]
