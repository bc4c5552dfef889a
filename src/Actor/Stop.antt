-- ===== src/Actor/Stop.antt =====
-- What an actor's stop leaves in the backend.
use ggs.Prelude.{◌≡◌, refl, Bool, true, Option, none, some, ok}
use ggs.Model.Dirty.{DirtyOps}
use ggs.Persist.{
  BdError, PersistError, backend, Bytes, ModelOps, Backend, Run, save_model, extract_model_dirty,
  update_op, clear_model_dirty,
}
use ggs.Persist.Save.{Saved, save_model_lem, report}
use ggs.Actor.{Timers, World, on_stop, after_save}

module _ {M : Type 0} (d : DirtyOps M) (ops : ModelOps M) (b : Backend M) (s : Timers) where
  open b use {B}

  abbrev pub W : Type 0
  W = World d ops b s

  -- What the stop of the actor `w` leaves when its save ended with `o`.
  abbrev pub stopped : (M → M) → W → Option BdError × Run B → Option PersistError × W
  stopped release w o = elim o.0 [
    | none ↦ (none, record w { model = release (clear_model_dirty ops b w.model); bd = o.1.bd })
    | some e ↦ (some (backend e), record w { bd = o.1.bd })
  ]

  on_stop-report :
      (release : M → M) (w : W) (o : Option BdError × Run B)
      → (d.is_dirty w.model).0 ≡ true
      → save_model ops b w.model w.bd ≡ report ops b w.model o
      → on_stop d ops b s release w ≡ stopped release w o
  unfolding on_stop after_save
  on_stop-report release w (none, run) h q = rw (on_stop, h, q) refl
  on_stop-report release w (some e, run) h q = rw (on_stop, h, q) refl

  -- The stop of an actor with dirty data calls the backend with the one operation made of that data,
  -- until a call takes it and at most four times. The model is released only when a call took it;
  -- otherwise the stop reports the last error and the model keeps its dirty data.
  pub on_stop_lem :
      (release : M → M) (w : W) (u : Option Bytes × Bool)
      → (d.is_dirty w.model).0 ≡ true
      → extract_model_dirty ops b w.model ≡ ok u
      → (o : Option BdError × Run B) × Saved ops b
          (update_op ops b w.model u)
          0
          (record { bd = w.bd; slept = 0 })
          4
          o
        × (on_stop d ops b s release w ≡ stopped release w o)
  on_stop_lem release w u h e =
      let (o, p, t, q) = save_model_lem ops b w.model w.bd u e in
      (o, p, on_stop-report release w o h q)
