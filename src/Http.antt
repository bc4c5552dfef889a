-- ===== src/Http.antt =====
-- Requests over HTTP: the wrappers of the services' handlers (internal/utils/ginutils), the calls of a
-- client (internal/utils/httputils, app/client/internal/mode/internal/utils/login.go), and the
-- handlers of servers (app/platform/internal/handlers/server.go, app/login/internal/handlers/server.go).
--
-- HTTP and JSON are code of libraries: how a request is bound and how a call reaches a service are
-- parameters. A body's `db` is of the type that the client asks for.
pub mod Calls
pub mod Created
pub mod Servers
mod Samples
use ggs.Prelude.{ℕ, ◌≡◌, ◌⊎◌, Bool, true, false, Option, none, some, if◌then◌else◌, Result, ok, err}
use ggs.Prelude.Int.{ℤ, pos, negsuc, eqb_ℤ}
use Prim.Native.String.{String}

pub record CommonResp (D : Type 0) : Type 0 where
  pub code : ℤ
  pub msg : String
  pub body : Option D

-- An error of a handler: one with a code, or any other.
pub data HandlerError : Type 0 where
  coded : ℤ → String → HandlerError
  plain : String → HandlerError

-- What a service answers: a status and a body.
abbrev pub Answer : Type 0 → Type 0
Answer D = ℕ × CommonResp D

abbrev pub status_ok : ℕ
status_ok = 200

abbrev pub status_bad_request : ℕ
status_bad_request = 400

module _ {D : Type 0} where
  -- `AbortWithStatusError`
  abbrev pub abort_with_status_error : ℕ → HandlerError → Answer D
  abort_with_status_error status (coded code msg) =
      (status, record { code = code; msg = msg; body = none })
  abort_with_status_error status (plain msg) =
      (status, record { code = negsuc 0; msg = msg; body = none })

  -- `BadRequest`, `FailWithError` and `OK`
  abbrev pub bad_request : HandlerError → Answer D
  bad_request e = abort_with_status_error status_bad_request e

  abbrev pub fail_with_error : HandlerError → Answer D
  fail_with_error e = abort_with_status_error status_ok e

  abbrev pub succeed : Option D → Answer D
  succeed body = (status_ok, record { code = pos 0; msg = "success"; body = body })

  abbrev pub answer_with : Result HandlerError (Option D) → Answer D
  answer_with (err e) = fail_with_error e
  answer_with (ok body) = succeed body

abbrev pub with_body :
    {Resp : Type 0} → Result HandlerError Resp → Result HandlerError (Option Resp)
with_body (err e) = err e
with_body (ok resp) = ok (some resp)

abbrev pub without_body : {Resp : Type 0} → Option HandlerError → Result HandlerError (Option Resp)
without_body (some e) = err e
without_body none = ok none

module _ {Req Resp S : Type 0} where
  -- `WrapHandlerJsonJson`; `bind` is what `ShouldBindJSON` makes of the request.
  abbrev pub wrap_handler_json_json :
      (Req → S → Result HandlerError Resp × S) → Result String Req → S → Answer Resp × S
  wrap_handler_json_json h (err e) s = (bad_request (plain e), s)
  wrap_handler_json_json h (ok req) s = let (r, s') = h req s in (answer_with (with_body r), s')

  -- `WrapHandlerQueryJson`, where `ShouldBindQuery` binds
  abbrev pub wrap_handler_query_json :
      (Req → S → Result HandlerError Resp × S) → Result String Req → S → Answer Resp × S
  wrap_handler_query_json h (err e) s = (bad_request (plain e), s)
  wrap_handler_query_json h (ok req) s = let (r, s') = h req s in (answer_with (with_body r), s')

  -- `WrapHandlerJsonNone`
  abbrev pub wrap_handler_json_none :
      (Req → S → Option HandlerError × S) → Result String Req → S → Answer Resp × S
  wrap_handler_json_none h (err e) s = (bad_request (plain e), s)
  wrap_handler_json_none h (ok req) s = let (r, s') = h req s in (answer_with (without_body r), s')

-- A call of the library: what becomes of the answer of a service.
abbrev pub Call : Type 0 → Type 0 → Type 0
Call D S = (S → Answer D × S) → S → Result String (CommonResp D) × S

module _ {D : Type 0} where
  -- `checkCommonResp`
  abbrev pub check_common_resp : CommonResp D → Option String
  check_common_resp resp = if eqb_ℤ resp.code (pos 0) then none else some resp.msg

  abbrev pub checked : CommonResp D → Option String → Result String (Option D)
  checked resp (some e) = err e
  checked resp none = ok resp.body

  abbrev pub json_result : Result String (CommonResp D) → Result String (Option D)
  json_result (err e) = err e
  json_result (ok resp) = checked resp (check_common_resp resp)

module _ {D S : Type 0} where
  -- A call does not reach the service, or it does, and the answer is lost, or its body arrives.
  pub data IsCall (call : Call D S) (serve : S → Answer D × S) (s : S) : Type 0 where
    unsent : (e : String) → call serve s ≡ (err e, s) → IsCall call serve s
    lost : (e : String) → call serve s ≡ (err e, (serve s).1) → IsCall call serve s
    arrived : call serve s ≡ (ok (serve s).0.1, (serve s).1) → IsCall call serve s

  -- `PostJsonWithContext` and `GetJsonWithContext`; without a `db` the response is left as it was.
  unfoldable pub post_json_with_context :
      Call D S → (S → Answer D × S) → S → Result String (Option D) × S
  post_json_with_context call serve s = let (r, s') = call serve s in (json_result r, s')

  unfoldable pub get_json_with_context :
      Call D S → (S → Answer D × S) → S → Result String (Option D) × S
  get_json_with_context call serve s = let (r, s') = call serve s in (json_result r, s')

-- The response that a client returns, with its zero value when the call left it.
abbrev pub or_zero : {D : Type 0} → D → Result String (Option D) → Result String D
or_zero zero (err e) = err e
or_zero zero (ok none) = ok zero
or_zero zero (ok (some d)) = ok d

-- `GetCharacterList`, `CreateCharacter` and `LoginCharacter`, with the service that their path names.
module _ {S : Type 0} where
  abbrev pub get_character_list :
      {L : Type 0} → L → Call L S → (S → Answer L × S) → S → Result String L × S
  get_character_list empty call serve s =
      let (r, s') = get_json_with_context call serve s in (or_zero empty r, s')

  abbrev pub create_character :
      Call ℤ S → (Result String ℤ → S → Answer ℤ × S) → ℤ → S → Result String ℤ × S
  create_character call serve server_id s =
      let (r, s') = post_json_with_context call (serve (ok server_id)) s in (or_zero (pos 0) r, s')

  abbrev pub login_character :
      Call String S → (Result String ℤ → S → Answer String × S) → ℤ → S → Result String String × S
  login_character call serve character_id s =
      let (r, s') = post_json_with_context call (serve (ok character_id)) s in (or_zero "" r, s')
