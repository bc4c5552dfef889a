-- ===== src/Game/Dispatch/Answers.antt =====
-- What becomes of a request between servers.
use mathlib.Core.Path.{subst}
use ggs.Prelude.{
  ◌≡◌, refl, ap, sym, Bool, true, false, Option, none, some, [], ◌∷◌, ◌++◌, if◌then◌else◌, Result,
  ok, err,
}
use ggs.Game.Dispatch.{
  RpcError, pb_error, other_error, Reply, decode_error, error_reply, response, ec_internal_error,
  Context, reply, abort, set_msg, answer_rpc, end_cast, dispatch, s2s_handle, Cast, Entry, rpc,
  cast, wrapped, Takes,
}

abbrev pub is_response : {Resp : Type 0} → Reply Resp → Bool
is_response (response resp) = true
is_response _ = false

module _ {Msg Resp S : Type 0} where
  -- The handler has answered once, and aborted the request unless it is a response.
  abbrev pub IsAnswered : Context Msg Resp → Option (Context Msg Resp × S) → Type 0
  IsAnswered ctx r =
      (after : Context Msg Resp) × (s : S) × (answer : Reply Resp) × (r ≡ some (after, s))
      × (after.replies ≡ ctx.replies ++ (answer ∷ []))
      × (after.aborted ≡ (if is_response answer then ctx.aborted else true))

  answer_rpc-IsAnswered :
      (ctx : Context Msg Resp) (r : Result RpcError Resp) (s : S)
      → IsAnswered ctx (some (answer_rpc (r, s) ctx))
  answer_rpc-IsAnswered ctx (ok resp) s =
      (reply (response resp) ctx, s, response resp, refl, refl, refl)
  answer_rpc-IsAnswered ctx (err (pb_error code)) s =
      (abort (reply (error_reply code) ctx), s, error_reply code, refl, refl, refl)
  answer_rpc-IsAnswered ctx (err other_error) s = (
    abort (reply (error_reply ec_internal_error) ctx),
    s,
    error_reply ec_internal_error,
    refl,
    refl,
    refl,
  )

  -- A cast gets no reply, and is aborted when its function fails, which is told by its result.
  abbrev pub IsCast :
      Cast Msg S → Msg → Context Msg Resp → S → Option (Context Msg Resp × S) → Type 0
  IsCast x msg ctx s r =
      (params : x.Params) × (after : Context Msg Resp) × (x.as_params msg ≡ some params)
      × (r ≡ some (after, (x.f params s).1))
      × (after.replies ≡ ctx.replies)
      × (after.aborted ≡ (if (x.f params s).0 then ctx.aborted else true))

  end_cast-IsCast :
      (x : Cast Msg S) (msg : Msg) (ctx : Context Msg Resp) (s : S) (params : x.Params)
      → x.as_params msg ≡ some params
      → (b : Bool) → (x.f params s).0 ≡ b
      → IsCast x msg ctx s (some (end_cast (x.f params s) (set_msg msg ctx)))
  end_cast-IsCast x msg ctx s params e true f =
      rw f (params, set_msg msg ctx, e, refl, refl, rw f refl)
  end_cast-IsCast x msg ctx s params e false f =
      rw f (params, abort (set_msg msg ctx), e, refl, refl, rw f refl)

  abbrev cast_with :
      (x : Cast Msg S)
      → Msg
      → Context Msg Resp
      → S
      → Option x.Params
      → Option (Context Msg Resp × S)
  cast_with x msg ctx s o = elim o [
    | none ↦ none
    | some params ↦ some (end_cast (x.f params s) (set_msg msg ctx))
  ]

  -- What becomes of a request, by the function that its message is registered with.
  abbrev pub Handled :
      Option (Entry Msg Resp S)
      → Msg
      → Context Msg Resp
      → S
      → Option (Context Msg Resp × S)
      → Type 0
  Handled (some (cast x)) msg ctx s r = IsCast x msg ctx s r
  Handled (some (rpc x)) msg ctx s r = IsAnswered ctx r
  Handled none msg ctx s r = IsAnswered ctx r

  dispatch-Handled :
      (entry : Option (Entry Msg Resp S)) (msg : Msg) (ctx : Context Msg Resp) (s : S)
      → ((x : Entry Msg Resp S) → entry ≡ some x → Takes x msg)
      → Handled entry msg ctx s (dispatch (wrapped entry) (set_msg msg ctx) s)
  dispatch-Handled none msg ctx s typed = (
    abort (reply (error_reply ec_internal_error) (set_msg msg ctx)),
    s,
    error_reply ec_internal_error,
    refl,
    refl,
    refl,
  )
  dispatch-Handled (some (rpc x)) msg ctx s typed =
      let (req, e) = typed (rpc x) refl in
      rw e (answer_rpc-IsAnswered (set_msg msg ctx) (x.f req s).0 (x.f req s).1)
  dispatch-Handled (some (cast x)) msg ctx s typed =
      let (params, e) = typed (cast x) refl in
      subst (IsCast x msg ctx s) (ap (cast_with x msg ctx s) (sym e))
        (end_cast-IsCast x msg ctx s params e (x.f params s).0 refl)

  -- What becomes of a request that is decoded, or not.
  abbrev pub AllHandled :
      {Pid : Type 0}
      → (Pid → Option (Entry Msg Resp S))
      → Option (Pid × Msg)
      → Context Msg Resp
      → S
      → Option (Context Msg Resp × S)
      → Type 0
  AllHandled table none ctx s r = IsAnswered ctx r
  AllHandled table (some (pid, msg)) ctx s r = Handled (table pid) msg ctx s r

-- When every function takes the messages that it is registered for, a request is answered exactly once,
-- whether it does not decode, has no function, or its RPC fails or responds, and it is aborted unless it
-- gets a response. A cast gets no reply, and is aborted when its function fails, and else goes on.
pub s2s_handle-IsHandled :
    {Pid Msg Resp S : Type 0} (table : Pid → Option (Entry Msg Resp S))
    (decoded : Option (Pid × Msg)) (ctx : Context Msg Resp) (s : S)
    → ((pid : Pid) (msg : Msg) (x : Entry Msg Resp S)
        → decoded ≡ some (pid, msg)
        → table pid ≡ some x
        → Takes x msg)
    → AllHandled table decoded ctx s (s2s_handle (λ pid. wrapped (table pid)) decoded ctx s)
unfolding s2s_handle
s2s_handle-IsHandled table none ctx s typed =
    (abort (reply decode_error ctx), s, decode_error, refl, refl, refl)
s2s_handle-IsHandled table (some (pid, msg)) ctx s typed =
    dispatch-Handled (table pid) msg ctx s (λ x e. typed pid msg x refl e)
