-- ===== src/Login/CharacterList.antt =====
-- The list of an account's characters (`handleCharacterList` of
-- app/login/internal/handlers/character.go).
--
-- The query of the database is a parameter.
use ggs.Prelude.{ℕ, List, [], ◌∷◌, Result, ok, err}
use ggs.Prelude.Int.{ℤ}
use ggs.Login.{ErrCode, internal_error, DbError, Character}

pub record CharacterInfo : Type 0 where
  pub id : ℤ
  pub name : List ℕ
  pub server_id : ℤ

abbrev pub infos : List Character → List CharacterInfo
infos [] = []
infos (character ∷ rest) =
    record { id = character.id; name = character.name; server_id = character.server_id }
    ∷ infos rest

abbrev pub handle_character_list :
    {D : Type 0}
    → (ℤ → D → Result DbError (List Character) × D)
    → ℤ
    → D
    → Result ErrCode (List CharacterInfo) × D
handle_character_list get_all_characters account_id d =
    let (r, d') = get_all_characters account_id d in
    (elim r [ err _ ↦ err internal_error | ok characters ↦ ok (infos characters) ], d')
