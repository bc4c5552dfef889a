-- ===== src/Login/Enter.antt =====
-- Who may log in with a character.
use ggs.Prelude.{◌≡◌, ◌↔◌, refl, ap, ◌∙◌, ok, Bool-cases, Result-cases, inl, inr, arith}
use ggs.Prelude.Int.{ℤ, eqb_ℤ, eqb_ℤ-sound, eqb_ℤ-complete}
use ggs.Login.{no_documents, other, Character, Services, get_character_of, handle_character_login}

module _ (v : Services) (a id : ℤ) (d : v.D) where
  let_in :
      (c : Character)
      → (v.get_character id d).0 ≡ ok c
      → c.account_id ≡ a
      → (handle_character_login v a id d).0 ≡ ok (a, id, c.server_id)
  unfolding handle_character_login get_character_of
  let_in c e own = rw (e, eqb_ℤ-complete c.account_id a own) refl

  let_out :
      (t : ℤ × ℤ × ℤ)
      → (handle_character_login v a id d).0 ≡ ok t
      → (c : Character) × ((v.get_character id d).0 ≡ ok c)
        × (c.account_id ≡ a)
        × ((a, id, c.server_id) ≡ t)
  unfolding handle_character_login get_character_of
  let_out t h = elim (Result-cases (v.get_character id d).0) [
    | inl (c, e) ↦ elim (Bool-cases (eqb_ℤ c.account_id a)) [
      | inl f ↦ (c, e, eqb_ℤ-sound c.account_id a f, ground arith)
      | inr f ↦ absurd (ground arith)
    ]
    | inr (no_documents, e) ↦ absurd (ground arith)
    | inr (other n, e) ↦ absurd (ground arith)
  ]

  -- A login answers a token exactly when the character is found and belongs to the account; the
  -- token then names the account, that character and its server.
  login_iff :
      (t : ℤ × ℤ × ℤ)
      → ((handle_character_login v a id d).0 ≡ ok t) ↔ (
          (c : Character) × ((v.get_character id d).0 ≡ ok c)
          × (c.account_id ≡ a)
          × ((a, id, c.server_id) ≡ t))
  login_iff t = (let_out t, λ x. let (c, e, own, same) = x in let_in c e own ∙ ap ok same)
