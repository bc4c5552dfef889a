-- ===== src/Actor/Lost.antt =====
-- A change made while a save is under way is not saved.
use ggs.Prelude.{ℕ, ◌≡◌, refl, true, false, none, some, ◌∷◌, ok}
use ggs.Model.Dirty.{DirtyOps, IsModelDirty}
use ggs.Persist.{ModelOps, Backend, extract_model_dirty, extract_with, async_save_model, update_op}
use ggs.Actor.{Timers, World, on_model_dirty, handle_actor_save_result, on_save_timer, after_async}

module _ {M : Type 0} (d : DirtyOps M) (ops : ModelOps M) (b : Backend M) (s : Timers) where
  abbrev pub W : Type 0
  W = World d ops b s

  -- The actor after a change to `m` that a report of success follows, whatever was saved before.
  abbrev pub overtaken : M → ℕ → ℕ → W → W
  overtaken m delay jitter w =
      handle_actor_save_result d ops b s delay jitter true
        (on_model_dirty d ops b s delay jitter (record w { model = m }))

  extract-clean :
      (m : M)
      → ops.dirty ≡ some d
      → d.is_dirty m ≡ (false, false)
      → extract_model_dirty ops b m ≡ ok (none, false)
  unfolding extract_model_dirty extract_with
  extract-clean m h e = rw (extract_model_dirty, h, e) refl

  overtaken-clean :
      (law : IsModelDirty d) (m : M) (delay jitter : ℕ) (w : W)
      → d.is_dirty (overtaken m delay jitter w).model ≡ (false, false)
  unfolding handle_actor_save_result
  overtaken-clean law m delay jitter w = law.clears _

  on_save_timer-clean :
      (jitter tid : ℕ) (w : W)
      → ops.dirty ≡ some d
      → d.is_dirty w.model ≡ (false, false)
      → (b.add_update (update_op ops b w.model (none, false)) w.bd).0 ≡ none
      → (on_save_timer d ops b s jitter tid w).in_flight
        ≡ update_op ops b w.model (none, false) ∷ w.in_flight
  unfolding on_save_timer async_save_model after_async
  on_save_timer-clean jitter tid w h e a =
      rw (on_save_timer, async_save_model, extract-clean w.model h e, a, after_async) refl

  -- When the model changes to `m` after a save has taken its data and before that save is reported
  -- to have succeeded, the report leaves nothing dirty: the next save finds no data, and the
  -- operation that a timer then adds, if the backend takes it, has no update in it.
  overtaken_lost :
      (law : IsModelDirty d) (m : M) (delay jitter jitter' tid : ℕ) (w : W)
      → ops.dirty ≡ some d
      → let w' = overtaken m delay jitter w in
        (b.add_update (update_op ops b w'.model (none, false)) w'.bd).0 ≡ none
        → (d.is_dirty w'.model ≡ (false, false))
          × ((on_save_timer d ops b s jitter' tid w').in_flight
              ≡ update_op ops b w'.model (none, false) ∷ w'.in_flight)
  overtaken_lost law m delay jitter jitter' tid w h a =
      let c = overtaken-clean law m delay jitter w in
      (c, on_save_timer-clean jitter' tid (overtaken m delay jitter w) h c a)
