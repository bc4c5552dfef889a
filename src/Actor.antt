-- ===== src/Actor.antt =====
-- An actor with a model and its save timer (internal/infra/actor/actor.go, persist.go, and the timer
-- part of internal/infra/actor/persist/persist.go), with the handler of a save's result
-- (app/game/internal/handler/common/common.go).
--
-- The timer service is a parameter. A random delay is an argument of the operation that draws it.
pub mod Pending
pub mod Start
pub mod Stop
pub mod Lost
mod Samples
use ggs.Prelude.{
  ℕ, zero, suc, ◌+◌, ◌≢◌, Bool, true, false, Option, none, some, List, [], ◌∷◌, ◌==◌, if◌then◌else◌,
  Result, ok, err,
}
use Prim.Native.String.{String}
use ggs.Model.Dirty.{DirtyOps}
use ggs.Persist.{
  BdError, PersistError, ModelOps, Backend, UpdateOp, load_model, save_model, async_save_model, Run,
}

-- `StartTimer`: the identifier of a timer that will fire once, and the service's new state.
pub record Timers : Type 1 where
  pub T : Type 0
  pub timer_id_none : ℕ
  pub start_timer : ℕ → T → ℕ × T

-- A started timer has an identifier.
pub record IsTimers (s : Timers) : Type 0 where
  pub started : (delay : ℕ) (t : s.T) → (s.start_timer delay t).0 ≢ s.timer_id_none

abbrev pub retry_delay : ℕ
retry_delay = 5000

-- The timer `tid` leaves the pending ones when it fires.
unfoldable pub fired : ℕ → List ℕ → List ℕ
fired tid [] = []
fired tid (x ∷ xs) = let rest = fired tid xs in if tid == x then rest else x ∷ rest

module _ {M : Type 0} (d : DirtyOps M) (ops : ModelOps M) (b : Backend M) (s : Timers) where
  open b use {B}
  open s use {T, timer_id_none, start_timer}

  -- An actor, the timers of it that have yet to fire, and the operations of it whose result the
  -- backend has yet to report.
  pub record World : Type 0 where
    pub model : M
    pub save_timer_id : ℕ
    pub bd : B
    pub timers : T
    pub pending : List ℕ
    pub in_flight : List UpdateOp

  -- `startSaveTimer`
  unfoldable pub start_save_timer : ℕ → World → World
  start_save_timer delay w =
      let (tid, t) = start_timer delay w.timers in
      if w.save_timer_id == timer_id_none
      then record w { save_timer_id = tid; timers = t; pending = tid ∷ w.pending }
      else w

  -- `DelaySave` and `DelaySaveActorModel`; `jitter` is the random part of the delay.
  unfoldable pub delay_save : ℕ → ℕ → World → World
  delay_save delay jitter w = start_save_timer (delay + jitter) w

  -- `OnModelDirty`
  unfoldable pub on_model_dirty : ℕ → ℕ → World → World
  on_model_dirty delay jitter w = if (d.is_dirty w.model).0 then delay_save delay jitter w else w

  -- `SetAllDirty`
  unfoldable pub set_all_dirty : ℕ → ℕ → World → World
  set_all_dirty delay jitter w =
      on_model_dirty delay jitter (record w { model = d.set_all_dirty w.model })

  -- `SetDirtyModules`, with the loop over the keys as a parameter; `none` is its panic.
  unfoldable pub set_dirty_modules :
      (List String → M → Option M) → ℕ → ℕ → List String → World → Option World
  set_dirty_modules set_each delay jitter [] w = some w
  set_dirty_modules set_each delay jitter (k ∷ ks) w = elim (set_each (k ∷ ks) w.model) [
    | none ↦ none
    | some m ↦ some (on_model_dirty delay jitter (record w { model = m }))
  ]

  -- `OnStart`: the model is loaded, and a model with no document is to be stored whole.
  unfoldable pub on_start : ℕ → ℕ → World → Option BdError × World
  on_start delay jitter w =
      let ((exists, e), m, run) = load_model ops b w.model w.bd in
      let w' = record w { model = m; bd = run.bd } in
      elim e [
        | some x ↦ (some x, w')
        | none ↦ if exists then (none, w') else (none, set_all_dirty delay jitter w')
      ]

  -- The end of `OnStop`, when `SaveModel` has answered.
  unfoldable pub after_save :
      (M → M) → World → Option PersistError × M × Run B → Option PersistError × World
  after_save release w (some e, m, run) = (some e, record w { model = m; bd = run.bd })
  after_save release w (none, m, run) = (none, record w { model = release m; bd = run.bd })

  -- `OnStop`, with the model's `Release`.
  unfoldable pub on_stop : (M → M) → World → Option PersistError × World
  on_stop release w =
      if (d.is_dirty w.model).0
      then after_save release w (save_model ops b w.model w.bd)
      else (none, record w { model = release w.model })

  -- The end of `onSaveTimer`, when `AsyncSaveModel` has answered `r`.
  unfoldable pub after_async : ℕ → Result PersistError UpdateOp → World → World
  after_async jitter (ok op) w = record w { in_flight = op ∷ w.in_flight }
  after_async jitter (err _) w = start_save_timer (retry_delay + jitter) w

  -- `onSaveTimer` for the timer `tid`, which has fired.
  unfoldable pub on_save_timer : ℕ → ℕ → World → World
  on_save_timer jitter tid w =
      let id = if w.save_timer_id == tid then timer_id_none else w.save_timer_id in
      let (r, bd) = async_save_model ops b w.model w.bd in
      after_async jitter r (record w { save_timer_id = id; bd = bd; pending = fired tid w.pending })

  -- `handleActorSaveResult`; `delay` is the configured `SaveRetryDelay`.
  unfoldable pub handle_actor_save_result : ℕ → ℕ → Bool → World → World
  handle_actor_save_result delay jitter true w = record w { model = d.clear_dirty w.model }
  handle_actor_save_result delay jitter false w = delay_save delay jitter w
