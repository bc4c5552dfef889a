-- ===== src/Http/Calls.antt =====
-- What a client sees of a handler behind the wrappers.
use ggs.Prelude.{
  ◌≡◌, ◌⊎◌, inl, inr, refl, ap, ◌∙◌, Option, none, some, if◌then◌else◌, Result, ok, err, arith,
}
use ggs.Prelude.Int.{pos, eqb_ℤ}
use Prim.Native.String.{String}
use ggs.Http.{
  HandlerError, coded, plain, wrap_handler_json_json, Call, IsCall, unsent, lost, arrived,
  json_result, post_json_with_context, answer_with, with_body,
}

-- A handler's result, as a client sees it: an error without a code has the code -1.
abbrev pub seen : {Resp : Type 0} → Result HandlerError Resp → Result String (Option Resp)
seen (ok resp) = ok (some resp)
seen (err (coded code msg)) = if eqb_ℤ code (pos 0) then ok none else err msg
seen (err (plain msg)) = err msg

json_result-answer :
    {Resp : Type 0} (r : Result HandlerError Resp)
    → json_result (ok (answer_with (with_body r)).1) ≡ seen r
json_result-answer (ok resp) = refl
json_result-answer (err (coded code msg)) = ground arith
json_result-answer (err (plain msg)) = refl

-- A call of a wrapped handler fails before the handler runs, or the answer is lost when it has run, or
-- it returns what the handler answered: its response, or the message of its error, but for an error with
-- the code 0, which reads as no error and no response.
pub post_json_with_context-seen :
    {Req Resp S : Type 0} (call : Call Resp S) (h : Req → S → Result HandlerError Resp × S)
    (req : Req) (s : S)
    → IsCall call (wrap_handler_json_json h (ok req)) s
    → ((e : String) × ((post_json_with_context call (wrap_handler_json_json h (ok req)) s
            ≡ (err e, s))
          ⊎ (post_json_with_context call (wrap_handler_json_json h (ok req)) s
              ≡ (err e, (h req s).1))))
      ⊎ (post_json_with_context call (wrap_handler_json_json h (ok req)) s
          ≡ (seen (h req s).0, (h req s).1))
unfolding post_json_with_context
post_json_with_context-seen call h req s (unsent e p) =
    inl (e, inl (ap (λ x. (json_result x.0, x.1)) p))
post_json_with_context-seen call h req s (lost e p) =
    inl (e, inr (ap (λ x. (json_result x.0, x.1)) p))
post_json_with_context-seen call h req s (arrived p) = inr (
    ap (λ x. (json_result x.0, x.1)) p
    ∙ ap (λ r. (r, (h req s).1)) (json_result-answer (h req s).0))
