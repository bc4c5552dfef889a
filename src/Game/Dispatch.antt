-- ===== src/Game/Dispatch.antt =====
-- Requests between servers (internal/infra/actor/handler: the map of handlers, `S2SHandler.Handle`, the
-- wrappers of RPCs and casts; app/game/internal/handler/handler.go and handler/server).
--
-- The library's map of handlers and the registry of messages are parameters. `none` is a panic.
pub mod Answers
mod Samples
use mathlib.Core.Path.{subst}
use ggs.Prelude.{
  ℕ, ◌≡◌, refl, ap, sym, ◌∙◌, Bool, true, false, Option, none, some, List, [], ◌∷◌, ◌++◌,
  if◌then◌else◌, Result, ok, err, Option-cases, Result-cases, inl, inr, arith,
}

-- An error of a handler: a `PbError` with its code, or any other.
pub data RpcError : Type 0 where
  pb_error : ℕ → RpcError
  other_error : RpcError

pub data Reply (Resp : Type 0) : Type 0 where
  decode_error : Reply Resp
  error_reply : ℕ → Reply Resp
  response : Resp → Reply Resp

-- `ErrCode_ECInternalError` of the protocol between servers
abbrev pub ec_internal_error : ℕ
ec_internal_error = 1

-- The context of a request: its message, what was replied, and whether it was aborted.
pub record Context (Msg Resp : Type 0) : Type 0 where
  pub msg : Option Msg
  pub replies : List (Reply Resp)
  pub aborted : Bool

module _ {Msg Resp : Type 0} where
  abbrev pub reply : Reply Resp → Context Msg Resp → Context Msg Resp
  reply r ctx = record ctx { replies = ctx.replies ++ (r ∷ []) }

  abbrev pub abort : Context Msg Resp → Context Msg Resp
  abort ctx = record ctx { aborted = true }

  abbrev pub set_msg : Msg → Context Msg Resp → Context Msg Resp
  set_msg msg ctx = record ctx { msg = some msg }

  -- `GetArgs`: a panic without a message, or with one of another type.
  abbrev pub get_args : {Req : Type 0} → (Msg → Option Req) → Context Msg Resp → Option Req
  get_args as_req ctx = elim ctx.msg [ none ↦ none | some msg ↦ as_req msg ]

  -- `replyS2SError`
  abbrev pub reply_s2s_error : RpcError → Context Msg Resp → Context Msg Resp
  reply_s2s_error (pb_error code) ctx = reply (error_reply code) ctx
  reply_s2s_error other_error ctx = reply (error_reply ec_internal_error) ctx

-- What handles a request with the state `S` of the actor.
abbrev pub HandlerFunc : Type 0 → Type 0 → Type 0 → Type 0
HandlerFunc Msg Resp S = Context Msg Resp → S → Option (Context Msg Resp × S)

module _ {Msg Resp S : Type 0} where
  abbrev pub answer_rpc : Result RpcError Resp × S → Context Msg Resp → Context Msg Resp × S
  answer_rpc (ok resp, s) ctx = (reply (response resp) ctx, s)
  answer_rpc (err e, s) ctx = (abort (reply_s2s_error e ctx), s)

  abbrev pub end_cast : Bool × S → Context Msg Resp → Context Msg Resp × S
  end_cast (true, s) ctx = (ctx, s)
  end_cast (false, s) ctx = (abort ctx, s)

-- `WrapRPCFunc`
abbrev pub wrap_rpc_func :
    {Msg Resp Req S : Type 0}
    → (Msg → Option Req)
    → (Req → S → Result RpcError Resp × S)
    → HandlerFunc Msg Resp S
wrap_rpc_func as_req f ctx s = elim (get_args as_req ctx) [
  | none ↦ none
  | some req ↦ some (answer_rpc (f req s) ctx)
]

-- `WrapCastFunc`
abbrev pub wrap_cast_func :
    {Msg Resp Params S : Type 0}
    → (Msg → Option Params)
    → (Params → S → Bool × S)
    → HandlerFunc Msg Resp S
wrap_cast_func as_params f ctx s = elim (get_args as_params ctx) [
  | none ↦ none
  | some params ↦ some (end_cast (f params s) ctx)
]

-- `RegisterFunc`: a message that is not registered panics, and else the map takes the function.
abbrev pub register_func :
    {Msg Pid F H : Type 0}
    → (Msg → Option Pid)
    → (Pid → F → H → Bool × H)
    → Msg
    → F
    → H
    → Option (Bool × H)
register_func get_pid register msg f m = elim (get_pid msg) [
  | none ↦ none
  | some pid ↦ some (register pid f m)
]

module _ {Msg Resp S : Type 0} where
  abbrev pub dispatch :
      Option (HandlerFunc Msg Resp S) → Context Msg Resp → S → Option (Context Msg Resp × S)
  dispatch none ctx s = some (abort (reply (error_reply ec_internal_error) ctx), s)
  dispatch (some f) ctx s = f ctx s

module _ {Pid Msg Resp S : Type 0} where
  -- `S2SHandler.Handle`, with what the request decodes to and the function of each message.
  unfoldable pub s2s_handle :
      (Pid → Option (HandlerFunc Msg Resp S))
      → Option (Pid × Msg)
      → Context Msg Resp
      → S
      → Option (Context Msg Resp × S)
  s2s_handle m none ctx s = some (abort (reply decode_error ctx), s)
  s2s_handle m (some (pid, msg)) ctx s = dispatch (m pid) (set_msg msg ctx) s

-- `Handle`: the requests of clients, and all others.
abbrev pub handle_request : {A : Type 0} → Bool → A → A → A
handle_request is_req c2s s2s = if is_req then c2s else s2s

-- A function for the RPC of a message, and what it takes of the message.
pub record Rpc (Msg Resp S : Type 0) : Type 1 where
  pub Req : Type 0
  pub as_req : Msg → Option Req
  pub f : Req → S → Result RpcError Resp × S

-- A function for a cast, which says whether it works.
pub record Cast (Msg S : Type 0) : Type 1 where
  pub Params : Type 0
  pub as_params : Msg → Option Params
  pub f : Params → S → Bool × S

pub data Entry (Msg Resp S : Type 0) : Type 1 where
  rpc : Rpc Msg Resp S → Entry Msg Resp S
  cast : Cast Msg S → Entry Msg Resp S

abbrev pub wrapped :
    {Msg Resp S : Type 0} → Option (Entry Msg Resp S) → Option (HandlerFunc Msg Resp S)
wrapped none = none
wrapped (some (rpc x)) = some (wrap_rpc_func x.as_req x.f)
wrapped (some (cast x)) = some (wrap_cast_func x.as_params x.f)

-- The message is of the type that the function is registered for.
abbrev pub Takes : {Msg Resp S : Type 0} → Entry Msg Resp S → Msg → Type 0
Takes (rpc x) msg = (req : x.Req) × (x.as_req msg ≡ some req)
Takes (cast x) msg = (params : x.Params) × (x.as_params msg ≡ some params)

-- `handleGetServerName`, with `GetServerName`: the name that the server's actor has.
abbrev pub handle_get_server_name :
    {Name S : Type 0} → (S → Name) → Unit {0} → S → Result RpcError Name × S
handle_get_server_name server_name req s = (ok (server_name s), s)
