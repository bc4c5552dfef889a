-- ===== src/Http/Created.antt =====
-- A client that creates a character at the login service.
use mathlib.Core.Path.{subst}
use ggs.Prelude.{◌≡◌, ◌⊎◌, inl, inr, refl, sym, Option, List, ◌∷◌, Result, ok, err, arith}
use ggs.Prelude.Int.{ℤ, pos}
use Prim.Native.String.{String}
use ggs.Login.{
  ErrCode, ok_code, internal_error, auth_failed, server_unavailable, character_count_limited,
  server_character_count_limited, character_not_exist, Character, Services, handle_character_create,
  check_server_available, check_server_count, check_create_character, store_character,
  lock_and_create, check_and_create, refresh_and_create,
}
use ggs.Login
use ggs.Login.Create.{IsServices, new_character}
use ggs.Login.Create.Outcome.{Outcome, create-Outcome}
use ggs.Http.{
  HandlerError, coded, Answer, wrap_handler_json_json, Call, IsCall, create_character, or_zero,
}
use ggs.Http.Calls.{seen, post_json_with_context-seen}

-- `Code`
abbrev pub code_of : ErrCode → ℤ
code_of ok_code = pos 0
code_of internal_error = pos 1
code_of auth_failed = pos 2
code_of server_unavailable = pos 3
code_of character_count_limited = pos 4
code_of server_character_count_limited = pos 5
code_of character_not_exist = pos 6

module _ (v : Services) (law : IsServices v) (a : ℤ) (text : ErrCode → String) where
  open v use {D}

  abbrev pub with_code : Result ErrCode ℤ → Result HandlerError ℤ
  with_code (ok id) = ok id
  with_code (err e) = err (coded (code_of e) (text e))

  abbrev pub create_handler : ℤ → D → Result HandlerError ℤ × D
  create_handler s d = let (r, d') = handle_character_create v a s d in (with_code r, d')

  -- The route `/character/create`, for a request of account `a`
  abbrev pub serve_create : Result String ℤ → D → Answer ℤ × D
  serve_create = wrap_handler_json_json create_handler

  fails : (s : ℤ) (d : D) → (handle_character_create v a s d).0 ≡ err ok_code → ⊥
  unfolding handle_character_create check_server_available check_server_count check_create_character
      store_character lock_and_create check_and_create refresh_and_create Login.create_character
  fails s d h = absurd (ground arith)

  Outcome-grows :
      (s : ℤ) (cs after : List Character) (r : Result ErrCode ℤ)
      → Outcome v law a s cs after r
      → (after ≡ cs) ⊎ ((id : ℤ) × (after ≡ new_character v law a s id ∷ cs))
  Outcome-grows s cs after (ok id) h = inr (id, h)
  Outcome-grows s cs after (err internal_error) h = h
  Outcome-grows s cs after (err ok_code) h = inl h
  Outcome-grows s cs after (err auth_failed) h = inl h
  Outcome-grows s cs after (err server_unavailable) h = inl h
  Outcome-grows s cs after (err character_count_limited) h = inl h
  Outcome-grows s cs after (err server_character_count_limited) h = inl h
  Outcome-grows s cs after (err character_not_exist) h = inl h

  -- What the client's answer says of the characters.
  abbrev pub Says : ℤ → List Character → Result String ℤ → List Character → Type 0
  Says s cs (ok id) after = after ≡ new_character v law a s id ∷ cs
  Says s cs (err e) after = (after ≡ cs) ⊎ ((id : ℤ) × (after ≡ new_character v law a s id ∷ cs))

  seen-Says :
      (s : ℤ) (cs after : List Character) (r : Result ErrCode ℤ)
      → (r ≡ err ok_code → ⊥)
      → Outcome v law a s cs after r
      → Says s cs (or_zero (pos 0) (seen (with_code r))) after
  seen-Says s cs after (ok id) n h = h
  seen-Says s cs after (err ok_code) n h = absurd (n refl)
  seen-Says s cs after (err internal_error) n h = h
  seen-Says s cs after (err auth_failed) n h = inl h
  seen-Says s cs after (err server_unavailable) n h = inl h
  seen-Says s cs after (err character_count_limited) n h = inl h
  seen-Says s cs after (err server_character_count_limited) n h = inl h
  seen-Says s cs after (err character_not_exist) n h = inl h

  -- When the client's call to create a character returns an identifier, the database has one more
  -- character, with that identifier, and of the account and the wanted server. When it returns an
  -- error, whether the service refused, the request was not sent or the answer was lost, the database
  -- has the characters it had, or one more of the account and the wanted server.
  pub create_character-Says :
      (call : Call ℤ D) (s : ℤ) (d : D)
      → IsCall call (serve_create (ok s)) d
      → Says s
          (v.characters d)
          (create_character call serve_create s d).0
          (v.characters (create_character call serve_create s d).1)
  create_character-Says call s d c =
      let r = handle_character_create v a s d in
      let says = λ (x : Result String (Option ℤ) × D).
        Says s (v.characters d) (or_zero (pos 0) x.0) (v.characters x.1) in
      elim (post_json_with_context-seen call create_handler s d c) [
        | inl (e, inl p) ↦ subst says (sym p) (inl refl)
        | inl (e, inr p) ↦
            subst says (sym p)
              (Outcome-grows s (v.characters d) (v.characters r.1) r.0 (create-Outcome v law a s d))
        | inr p ↦ subst says (sym p) (
            seen-Says s (v.characters d) (v.characters r.1) r.0 (fails s d)
              (create-Outcome v law a s d))
      ]
