-- ===== src/Actor/Pending.antt =====
-- Dirty data of an actor is always on its way to the backend, with one save timer at most.
use ggs.Prelude.{
  ℕ, ◌+◌, ◌≢◌, ◌≡◌, ◌⊎◌, inl, inr, refl, sym, ap, ◌∙◌, Bool, true, false, List, [], ◌∷◌, ◌++◌, ◌==◌,
  ==_refl, if◌then◌else◌, Result, ok, err, Bool-cases, arith,
}
use ggs.Model.Dirty.{DirtyOps, IsModelDirty}
use ggs.Persist.{PersistError, ModelOps, Backend, UpdateOp}
use ggs.Actor.{
  Timers, IsTimers, World, retry_delay, fired, start_save_timer, delay_save, on_model_dirty,
  on_save_timer, after_async, handle_actor_save_result,
}

module _ {M : Type 0} (d : DirtyOps M) (ops : ModelOps M) (b : Backend M) (s : Timers) where
  open s use {timer_id_none}

  abbrev pub W : Type 0
  W = World d ops b s

  -- The timers that an actor has to wait for.
  abbrev pub timer_of : ℕ → List ℕ
  timer_of tid = if tid == timer_id_none then [] else tid ∷ []

  pub record IsKept (w : W) : Type 0 where
    pub one_timer : w.pending ≡ timer_of w.save_timer_id
    pub on_its_way :
        (d.is_dirty w.model).0 ≡ true → (w.save_timer_id ≢ timer_id_none) ⊎ (w.in_flight ≢ [])

  -- What happens to an actor: its model changes and `OnModelDirty` is called, its timer fires, or
  -- the backend reports on one of its operations.
  pub data Step : W → W → Type 0 where
    changed :
        {w : W} (m : M) (delay jitter : ℕ)
        → Step w (on_model_dirty d ops b s delay jitter (record w { model = m }))
    fires :
        {w : W} (jitter tid : ℕ) (rest : List ℕ)
        → w.pending ≡ tid ∷ rest
        → Step w (on_save_timer d ops b s jitter tid w)
    reported :
        {w : W} (delay jitter : ℕ) (success : Bool) (before after : List UpdateOp) (op : UpdateOp)
        → w.in_flight ≡ before ++ (op ∷ after)
        → Step w (
            handle_actor_save_result d ops b s delay jitter success
              (record w { in_flight = before ++ after }))

  module _ (law : IsModelDirty d) (t : IsTimers s) where
    start_save_timer-timer_of :
        (delay : ℕ) (w : W)
        → w.pending ≡ timer_of w.save_timer_id
        → let w' = start_save_timer d ops b s delay w in
          (w'.pending ≡ timer_of w'.save_timer_id) × (w'.save_timer_id ≢ timer_id_none)
    unfolding start_save_timer
    start_save_timer-timer_of delay w h = elim (Bool-cases (w.save_timer_id == timer_id_none)) [
      | inl e ↦ rw e (ground (arith, t.started delay w.timers))
      | inr e ↦ rw e (ground arith)
    ]

    start_save_timer-model :
        (delay : ℕ) (w : W)
        → let w' = start_save_timer d ops b s delay w in
          (w'.model ≡ w.model) × (w'.in_flight ≡ w.in_flight)
    unfolding start_save_timer
    start_save_timer-model delay w = elim (Bool-cases (w.save_timer_id == timer_id_none)) [
      | inl e ↦ rw e (refl, refl)
      | inr e ↦ rw e (refl, refl)
    ]

    start_save_timer-IsKept :
        (delay : ℕ) (w : W)
        → w.pending ≡ timer_of w.save_timer_id
        → IsKept (start_save_timer d ops b s delay w)
    start_save_timer-IsKept delay w h =
        let (p, q) = start_save_timer-timer_of delay w h in
        record { one_timer = p; on_its_way = λ _. inl q }

    pub on_model_dirty-IsKept :
        (m : M) (delay jitter : ℕ) (w : W)
        → IsKept w
        → IsKept (on_model_dirty d ops b s delay jitter (record w { model = m }))
    unfolding on_model_dirty delay_save
    on_model_dirty-IsKept m delay jitter w k = elim (Bool-cases (d.is_dirty m).0) [
      | inl e ↦ rw e (start_save_timer-IsKept (delay + jitter) (record w { model = m }) k.one_timer)
      | inr e ↦ rw e (record { one_timer = k.one_timer; on_its_way = λ h. absurd (ground arith) })
    ]

    -- A timer that fires is the one the actor waits for.
    fired-timer_of :
        (tid id : ℕ) (rest : List ℕ)
        → timer_of id ≡ tid ∷ rest
        → (fired tid (timer_of id) ≡ []) × ((id == tid) ≡ true)
    unfolding fired
    fired-timer_of tid id rest h = elim (Bool-cases (id == timer_id_none)) [
      | inl e ↦ absurd (ground arith)
      | inr e ↦ (ground arith, ground arith)
    ]

    after_async-IsKept :
        (jitter : ℕ) (r : Result PersistError UpdateOp) (w : W)
        → w.pending ≡ timer_of w.save_timer_id
        → IsKept (after_async d ops b s jitter r w)
    unfolding after_async
    after_async-IsKept jitter (ok op) w h = record {
      one_timer = h;
      on_its_way = λ _. inr (λ e. absurd (ground arith));
    }
    after_async-IsKept jitter (err e) w h = start_save_timer-IsKept (retry_delay + jitter) w h

    on_save_timer-IsKept :
        (jitter tid : ℕ) (rest : List ℕ) (w : W)
        → IsKept w
        → w.pending ≡ tid ∷ rest
        → IsKept (on_save_timer d ops b s jitter tid w)
    unfolding on_save_timer
    on_save_timer-IsKept jitter tid rest w k h =
        let (f, g) = fired-timer_of tid w.save_timer_id rest (sym k.one_timer ∙ h) in
        let none_left : timer_of timer_id_none ≡ [] = rw (==_refl timer_id_none) refl in
        rw g (after_async-IsKept jitter _ _ (ap (fired tid) k.one_timer ∙ f ∙ sym none_left))

    handle_actor_save_result-IsKept :
        (delay jitter : ℕ) (success : Bool) (ops' : List UpdateOp) (w : W)
        → IsKept w
        → IsKept (
            handle_actor_save_result d ops b s delay jitter success (record w { in_flight = ops' }))
    unfolding handle_actor_save_result delay_save
    handle_actor_save_result-IsKept delay jitter true ops' w k = record {
      one_timer = k.one_timer;
      on_its_way = λ h. absurd (ground (arith, law.clears w.model));
    }
    handle_actor_save_result-IsKept delay jitter false ops' w k =
        start_save_timer-IsKept (delay + jitter) (record w { in_flight = ops' }) k.one_timer

    -- Whatever happens to an actor, it waits for one save timer at most, the one that it knows, and
    -- when its model is dirty then that timer is pending or the backend has an operation of the actor.
    pub Step-IsKept : (w w' : W) → Step w w' → IsKept w → IsKept w'
    Step-IsKept w w' (changed m delay jitter) k = on_model_dirty-IsKept m delay jitter w k
    Step-IsKept w w' (fires jitter tid rest h) k = on_save_timer-IsKept jitter tid rest w k h
    Step-IsKept w w' (reported delay jitter success before after op h) k =
        handle_actor_save_result-IsKept delay jitter success (before ++ after) w k
