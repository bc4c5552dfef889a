-- ===== src/Actor/Start.antt =====
-- From its start on, an actor keeps its dirty data on the way to the backend.
use ggs.Prelude.{
  ℕ, zero, suc, ◌≡◌, inl, inr, refl, false, Option, none, some, [], ==_refl, ok, Bool-cases,
  Option-cases, Result-cases, arith,
}
use ggs.Model.Dirty.{DirtyOps, IsModelDirty}
use ggs.Persist.{
  BdError, is_network, ModelOps, ModelKey, Backend, Run, after_round, load_rounds, load_model,
}
use ggs.Actor.{Timers, IsTimers, World, on_start, set_all_dirty}
use ggs.Actor.Pending.{IsKept, Step, Step-IsKept, on_model_dirty-IsKept}

module _ {M : Type 0} (d : DirtyOps M) (ops : ModelOps M) (b : Backend M) (s : Timers) where
  open b use {B}

  abbrev pub W : Type 0
  W = World d ops b s

  pub data Steps : W → W → Type 0 where
    stop : {w : W} → Steps w w
    step : {u v w : W} → Step d ops b s u v → Steps v w → Steps u w

  -- A new actor: no timer, no operation, and a model with nothing to save.
  pub record IsFresh (w : W) : Type 0 where
    pub no_timer : w.save_timer_id ≡ s.timer_id_none
    pub no_pending : w.pending ≡ []
    pub clean : (d.is_dirty w.model).0 ≡ false

  -- Decoding a document into a model does not mark it.
  abbrev pub LoadsClean : Type 0
  LoadsClean =
      (key : ModelKey) (m m' : M) (bd bd' : B)
      → b.exec_load key m bd ≡ (ok m', bd')
      → (d.is_dirty m).0 ≡ false
      → (d.is_dirty m').0 ≡ false

  module _ (clean : LoadsClean) where
    load_rounds-clean :
        (rounds i : ℕ) (last : Option BdError) (m : M) (run : Run B)
        → (d.is_dirty m).0 ≡ false
        → (d.is_dirty (load_rounds ops b rounds i last m run).0.1).0 ≡ false
    unfolding load_rounds
    load_rounds-clean zero i last m run h = h
    load_rounds-clean (suc rounds) i last m run h =
        elim (Result-cases (b.exec_load (ops.key m) m run.bd).0) [
          | inl (m', e) ↦
              rw (e, load_rounds)
                (clean (ops.key m) m m' run.bd (b.exec_load (ops.key m) m run.bd).1 (ground arith)
                  h)
          | inr (x, e) ↦ elim (Bool-cases (is_network x)) [
            | inl n ↦
                rw (e, load_rounds, n)
                  (load_rounds-clean rounds (suc i) (some x) m
                    (after_round i run (b.exec_load (ops.key m) m run.bd).1) h)
            | inr n ↦ rw (e, load_rounds, n) h
          ]
        ]

    load_model-clean :
        (m : M) (bd : B)
        → (d.is_dirty m).0 ≡ false
        → (d.is_dirty (load_model ops b m bd).1).0 ≡ false
    unfolding load_model
    load_model-clean m bd h = load_rounds-clean 4 0 none m (record { bd = bd; slept = 0 }) h

    module _ (law : IsModelDirty d) (t : IsTimers s) where
      fresh-IsKept :
          (w : W) (m : M) (bd : B)
          → IsFresh w
          → (d.is_dirty m).0 ≡ false
          → IsKept d ops b s (record w { model = m; bd = bd })
      fresh-IsKept w m bd f h = record {
        one_timer = rw (f.no_timer, f.no_pending, ==_refl s.timer_id_none) refl;
        on_its_way = λ e. absurd (ground arith);
      }

      on_start-IsKept :
          (delay jitter : ℕ) (w : W)
          → IsFresh w
          → IsKept d ops b s (on_start d ops b s delay jitter w).1
      unfolding on_start set_all_dirty
      on_start-IsKept delay jitter w f =
          let l = load_model ops b w.model w.bd in
          let k = fresh-IsKept w l.1 l.2.bd f (load_model-clean w.model w.bd f.clean) in
          elim (Option-cases l.0.1) [
            | inr (x, e) ↦ rw (e, on_start) k
            | inl e ↦ elim (Bool-cases l.0.0) [
              | inl y ↦ rw (e, on_start, y) k
              | inr y ↦
                  rw (e, on_start, y)
                    (on_model_dirty-IsKept d ops b s law t (d.set_all_dirty l.1) delay jitter _ k)
            ]
          ]

      Steps-IsKept : (w w' : W) → Steps w w' → IsKept d ops b s w → IsKept d ops b s w'
      Steps-IsKept w w' stop k = k
      Steps-IsKept u w (step {v = v} p q) k =
          Steps-IsKept v w q (Step-IsKept d ops b s law t u v p k)

      -- From the start of a new actor on, whatever happens to it, one save timer at most is pending,
      -- and a dirty model has that timer or an operation that the backend has taken and not reported
      -- on. The backend's loads mark nothing, every started timer has an identifier, and every
      -- operation that is reported on reaches the actor.
      pub on_start-Steps-IsKept :
          (delay jitter : ℕ) (w w' : W)
          → IsFresh w
          → Steps (on_start d ops b s delay jitter w).1 w'
          → IsKept d ops b s w'
      on_start-Steps-IsKept delay jitter w w' f p =
          Steps-IsKept (on_start d ops b s delay jitter w).1 w' p (on_start-IsKept delay jitter w f)
