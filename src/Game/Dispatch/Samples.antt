-- ===== src/Game/Dispatch/Samples.antt =====
-- A server that tells its name, and the theorem at work on it.
use mathlib.Core.Path.{subst}
use ggs.Prelude.{if_elim, ℕ, refl, false, Option, none, some, [], ◌==◌, if◌then◌else◌}
use ggs.Game.Dispatch.{
  Context, Rpc, Cast, Entry, rpc, cast, Takes, wrapped, s2s_handle, handle_get_server_name,
}
use ggs.Game.Dispatch.Answers.{IsCast, s2s_handle-IsHandled}

-- The state of the actor is its name.
abbrev name_rpc : Rpc ℕ ℕ ℕ
name_rpc = record { Req = Unit {0}; as_req = λ msg. some tt; f = handle_get_server_name (λ s. s) }

-- The result of a save, which is cast to the actor.
abbrev save_cast : Cast ℕ ℕ
save_cast = record { Params = ℕ; as_params = some; f = λ success s. (success == 1, s) }

abbrev sample_table : ℕ → Option (Entry ℕ ℕ ℕ)
sample_table pid =
    if pid == 7 then some (rpc name_rpc) else (if pid == 8 then some (cast save_cast) else none)

abbrev empty_context : Context ℕ ℕ
empty_context = record { msg = none; replies = []; aborted = false }

abbrev AllTake : Option (Entry ℕ ℕ ℕ) → Type 0
AllTake none = Unit {0}
AllTake (some x) = (msg : ℕ) → Takes x msg

sample_table-AllTake : (pid : ℕ) → AllTake (sample_table pid)
sample_table-AllTake pid =
    if_elim AllTake (pid == 7) (λ h msg. (tt, refl))
      (λ h. if_elim AllTake (pid == 8) (λ k msg. (msg, refl)) (λ k. tt))

s2s_handle-IsHandled_example :
    IsCast save_cast 0 empty_context 42
      (s2s_handle (λ pid. wrapped (sample_table pid)) (some (8, 0)) empty_context 42)
s2s_handle-IsHandled_example =
    s2s_handle-IsHandled sample_table (some (8, 0)) empty_context 42
      (λ pid msg x e f. subst AllTake f (sample_table-AllTake pid) msg)
