-- ===== src/Login/Create/Outcome.antt =====
-- What the answer to a request that creates a character says of the database.
use ggs.Prelude.{◌≡◌, ◌⊎◌, inl, inr, List, ◌∷◌, Result, ok, err}
use ggs.Prelude.Int.{ℤ}
use ggs.Login.{
  ErrCode, ok_code, auth_failed, internal_error, server_unavailable, character_not_exist,
  character_count_limited, server_character_count_limited, Character, Services,
  handle_character_create,
}
use ggs.Login.Create.{IsServices, new_character, Created, refused, failed, created, handle-Handled}

module _ (v : Services) (law : IsServices v) (a s : ℤ) where
  open v use {D}

  -- What an answer says of the characters. An identifier is that of the one new character, of this
  -- account and server. A refusal by a check leaves them; after an internal error there may be a
  -- new character, which the answer does not name.
  abbrev pub Outcome : List Character → List Character → Result ErrCode ℤ → Type 0
  Outcome cs after (ok id) = after ≡ new_character v law a s id ∷ cs
  Outcome cs after (err internal_error) =
      (after ≡ cs) ⊎ ((id : ℤ) × (after ≡ new_character v law a s id ∷ cs))
  Outcome cs after (err e) = after ≡ cs

  Created-Outcome :
      (cs : List Character) (r : Result ErrCode ℤ × D)
      → Created v law a s cs r
      → Outcome cs (v.characters r.1) r.0
  Created-Outcome cs (err internal_error, d) (refused k) = inl k
  Created-Outcome cs (err ok_code, d) (refused k) = k
  Created-Outcome cs (err auth_failed, d) (refused k) = k
  Created-Outcome cs (err server_unavailable, d) (refused k) = k
  Created-Outcome cs (err character_count_limited, d) (refused k) = k
  Created-Outcome cs (err server_character_count_limited, d) (refused k) = k
  Created-Outcome cs (err character_not_exist, d) (refused k) = k
  Created-Outcome cs (err e, d) (failed {id = id} k) = inr (id, k)
  Created-Outcome cs (ok id, d) (created k) = k

  -- When creating a character answers an identifier, the database has one more character, with that
  -- identifier, account and server. When a check refuses, it has the characters it had; after an
  -- internal error it has them, or one more of the account and server.
  pub create-Outcome :
      (d : D)
      → let r = handle_character_create v a s d in Outcome (v.characters d) (v.characters r.1) r.0
  create-Outcome d =
      Created-Outcome (v.characters d) (handle_character_create v a s d)
        (handle-Handled v law a s d).0
