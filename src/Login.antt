-- ===== src/Login.antt =====
-- Creating a character and logging in with it (app/login/internal/handlers/character.go, over
-- internal/infra/mongo/repo/character.go and idgenerator.go).
--
-- The database, the lock and the store of actors' servers are services outside the repository: each
-- call is a function of their state, and may fail.
pub mod Create
pub mod Enter
mod CharacterList
pub mod Small
pub mod Lease
pub mod Auth
mod Samples
use ggs.Prelude.{
  ℕ, zero, suc, ◌+◌, Bool, true, false, Option, none, some, List, [], ◌∷◌, leb, if◌then◌else◌,
  Result, ok, err,
}
use ggs.Prelude.Int.{ℤ, pos, eqb_ℤ}

-- The error codes of app/login/internal/base/errs/errcode.go.
pub data ErrCode : Type 0 where
  ok_code internal_error auth_failed server_unavailable character_count_limited : ErrCode
  server_character_count_limited character_not_exist : ErrCode

pub data DbError : Type 0 where
  no_documents : DbError
  other : ℕ → DbError

-- `models.Character`, less the name, which no handler sets.
pub record Character : Type 0 where
  pub id : ℤ
  pub account_id : ℤ
  pub server_id : ℤ
  pub name : List ℕ

abbrev pub max_character_count_per_account : ℕ
max_character_count_per_account = 2

abbrev pub max_character_count_per_server : ℕ
max_character_count_per_server = 2

-- The services, with the characters that the database holds.
pub record Services : Type 1 where
  pub D : Type 0
  pub characters : D → List Character
  pub get_server : ℤ → D → Result DbError ℤ × D
  pub lock_account : ℤ → D → Option DbError × D
  pub refresh_lock : D → Option DbError × D
  pub unlock : D → D
  pub count_by_account : ℤ → D → Result DbError ℕ × D
  pub count_by_server : ℤ → ℤ → D → Result DbError ℕ × D
  pub gen_character_id : D → Result DbError ℤ × D
  pub insert_character : Character → D → Option DbError × D
  pub set_actor_server : ℤ → ℤ → D → Option DbError × D
  pub get_character : ℤ → D → Result DbError Character × D

module _ (v : Services) where
  open v use {D}

  -- `checkServerAvailable`
  unfoldable pub check_server_available : ℤ → D → Option ErrCode × D
  check_server_available s d =
      let (r, d') = v.get_server s d in
      (
        elim r [
          | ok _ ↦ none
          | err e ↦ elim e [
            | no_documents ↦ some server_unavailable
            | other _ ↦ some internal_error
          ]
        ],
        d',
      )

  -- The second half of `checkCreateCharacter`, once the account's limit is respected.
  unfoldable pub check_server_count : ℤ → ℤ → D → Option ErrCode × D
  check_server_count a s d =
      let (r, d') = v.count_by_server a s d in
      (
        elim r [
          | err _ ↦ some internal_error
          | ok n ↦
              if leb max_character_count_per_server n
              then some server_character_count_limited
              else none
        ],
        d',
      )

  -- `checkCreateCharacter`
  unfoldable pub check_create_character : ℤ → ℤ → D → Option ErrCode × D
  check_create_character a s d =
      let (r, d') = v.count_by_account a d in
      elim r [
        | err _ ↦ (some internal_error, d')
        | ok n ↦
            if leb max_character_count_per_account n
            then (some character_count_limited, d')
            else check_server_count a s d'
      ]

  -- The second half of `createCharacter`, with the identifier generated.
  unfoldable pub store_character : ℤ → ℤ → ℤ → D → Result ErrCode ℤ × D
  store_character id a s d =
      let (r, d1) =
        v.insert_character (record { id = id; account_id = a; server_id = s; name = [] }) d in
      let (q, d2) = v.set_actor_server id s d1 in
      elim r [
        | some _ ↦ (err internal_error, d1)
        | none ↦ elim q [ some _ ↦ (err internal_error, d2) | none ↦ (ok id, d2) ]
      ]

  -- `createCharacter`
  unfoldable pub create_character : ℤ → ℤ → D → Result ErrCode ℤ × D
  create_character a s d =
      let (r, d') = v.gen_character_id d in
      elim r [ err _ ↦ (err internal_error, d') | ok id ↦ store_character id a s d' ]

  -- What `handleCharacterCreate` does once the check has passed.
  unfoldable pub refresh_and_create : ℤ → ℤ → D → Result ErrCode ℤ × D
  refresh_and_create a s d =
      let (r, d') = v.refresh_lock d in
      elim r [ some _ ↦ (err internal_error, d') | none ↦ create_character a s d' ]

  -- What it does while it holds the account's lock.
  unfoldable pub check_and_create : ℤ → ℤ → D → Result ErrCode ℤ × D
  check_and_create a s d =
      let (r, d') = check_create_character a s d in
      elim r [ some e ↦ (err e, d') | none ↦ refresh_and_create a s d' ]

  unfoldable pub lock_and_create : ℤ → ℤ → D → Result ErrCode ℤ × D
  lock_and_create a s d =
      let (r, d1) = v.lock_account a d in
      let (x, d2) = check_and_create a s d1 in
      elim r [ some _ ↦ (err internal_error, d1) | none ↦ (x, v.unlock d2) ]

  -- `handleCharacterCreate` for account `a` and server `s`.
  unfoldable pub handle_character_create : ℤ → ℤ → D → Result ErrCode ℤ × D
  handle_character_create a s d =
      let (r, d') = check_server_available s d in
      elim r [ some e ↦ (err e, d') | none ↦ lock_and_create a s d' ]

  -- `getCharacter`
  unfoldable pub get_character_of : ℤ → D → Result ErrCode Character × D
  get_character_of id d =
      let (r, d') = v.get_character id d in
      (
        elim r [
          | ok c ↦ ok c
          | err e ↦ elim e [ no_documents ↦ err character_not_exist | other _ ↦ err internal_error ]
        ],
        d',
      )

  -- `handleCharacterLogin` of account `a`: what the token says, before it is signed.
  unfoldable pub handle_character_login : ℤ → ℤ → D → Result ErrCode (ℤ × ℤ × ℤ) × D
  handle_character_login a id d =
      let (r, d') = get_character_of id d in
      (
        elim r [
          | err e ↦ err e
          | ok c ↦ if eqb_ℤ c.account_id a then ok (a, id, c.server_id) else err character_not_exist
        ],
        d',
      )
