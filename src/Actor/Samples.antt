-- ===== src/Actor/Samples.antt =====
-- An actor with a model of one flag, and the theorems at work on it.
use ggs.Prelude.{
  ℕ, suc, ◌≡◌, refl, Bool, true, false, Option, none, some, [], ◌∷◌, arith, ltb, if◌then◌else◌, ok,
  err,
}
use ggs.Model.Dirty.{flag_ops, flag_ops-IsModelDirty}
use ggs.Persist.{
  BdError, no_documents, network, ModelKey, ModelOps, UpdateOp, Backend, Run, extract_model_dirty,
  extract_with, update_op, load_model, load_rounds, load_result, async_save_model,
}
use ggs.Persist.Save.{Saved}
use ggs.Actor.{
  Timers, IsTimers, World, on_start, set_all_dirty, on_model_dirty, delay_save, start_save_timer,
  on_save_timer, after_async, fired, handle_actor_save_result, on_stop,
}
use ggs.Actor.Pending.{IsKept, Step, fires, reported}
use ggs.Actor.Start.{Steps, stop, step, LoadsClean, on_start-Steps-IsKept}
use ggs.Actor.Stop.{on_stop_lem, stopped}

abbrev sample_key : ModelKey
sample_key = record { hash_key = "player/5"; collection = "player"; filter = "5" }

abbrev sample_ops : ModelOps Bool
sample_ops = record {
  key = λ _. sample_key;
  marshal_model = λ m. ok (1 ∷ []);
  dirty = some flag_ops;
}

-- The first load finds no document, a later one a clean model; the first write fails.
abbrev sample_backend : Backend Bool
sample_backend = record {
  B = ℕ;
  exec_load = λ _ _ n. (if ltb n 1 then err no_documents else ok false, suc n);
  exec_update = λ _ n. (if ltb n 1 then some network else none, suc n);
  add_update = λ _ n. (none, suc n);
}

abbrev sample_timers : Timers
sample_timers = record { T = ℕ; timer_id_none = 0; start_timer = λ delay t. (suc t, suc t) }

sample_timers-IsTimers : IsTimers sample_timers
sample_timers-IsTimers = record { started = λ delay t h. omega arith }

abbrev SampleWorld : Type 0
SampleWorld = World flag_ops sample_ops sample_backend sample_timers

sample_clean : LoadsClean flag_ops sample_ops sample_backend sample_timers
unfolding flag_ops
sample_clean key m m' bd bd' h e = ground arith

abbrev new_actor : SampleWorld
new_actor = record {
  model = false;
  save_timer_id = 0;
  bd = 0;
  timers = 0;
  pending = [];
  in_flight = [];
}

-- The model of the new actor was marked, its save timer is number 1.
abbrev started_actor : SampleWorld
started_actor = record {
  model = true;
  save_timer_id = 1;
  bd = 1;
  timers = 1;
  pending = 1 ∷ [];
  in_flight = [];
}

abbrev whole_update : UpdateOp
whole_update = record { key = sample_key; update = some (1 ∷ []); upsert = true }

abbrev saving_actor : SampleWorld
saving_actor = record {
  model = true;
  save_timer_id = 0;
  bd = 2;
  timers = 1;
  pending = [];
  in_flight = whole_update ∷ [];
}

abbrev waiting_actor : SampleWorld
waiting_actor = record {
  model = true;
  save_timer_id = 2;
  bd = 2;
  timers = 2;
  pending = 2 ∷ [];
  in_flight = [];
}

on_start_test :
    on_start flag_ops sample_ops sample_backend sample_timers 3 4 new_actor ≡ (none, started_actor)
unfolding on_start load_model load_rounds load_result set_all_dirty on_model_dirty delay_save
    start_save_timer flag_ops
on_start_test = refl

on_save_timer_test :
    on_save_timer flag_ops sample_ops sample_backend sample_timers 2 1 started_actor ≡ saving_actor
unfolding on_save_timer after_async async_save_model extract_model_dirty extract_with fired flag_ops
on_save_timer_test = refl

handle_actor_save_result_test :
    handle_actor_save_result flag_ops sample_ops sample_backend sample_timers 60 1 false
      (record saving_actor { in_flight = [] })
    ≡ waiting_actor
unfolding handle_actor_save_result delay_save start_save_timer
handle_actor_save_result_test = refl

-- The timer fires, and the save fails.
sample_steps :
    Steps flag_ops sample_ops sample_backend sample_timers
      (on_start flag_ops sample_ops sample_backend sample_timers 3 4 new_actor).1
      waiting_actor
sample_steps =
    let first : Step flag_ops sample_ops sample_backend sample_timers started_actor saving_actor =
      rw (← on_save_timer_test) (fires 2 1 [] refl) in
    let second : Step flag_ops sample_ops sample_backend sample_timers saving_actor waiting_actor =
      rw (← handle_actor_save_result_test) (reported 60 1 false [] [] whole_update refl) in
    rw on_start_test (step first (step second stop))

on_start-Steps-IsKept_example :
    IsKept flag_ops sample_ops sample_backend sample_timers waiting_actor
on_start-Steps-IsKept_example =
    on_start-Steps-IsKept flag_ops sample_ops sample_backend sample_timers sample_clean
      flag_ops-IsModelDirty sample_timers-IsTimers 3 4 new_actor waiting_actor
      (record { no_timer = refl; no_pending = refl; clean = new_clean }) sample_steps
  where
    new_clean : (flag_ops.is_dirty false).0 ≡ false
    new_clean = unfold flag_ops in refl

flag_dirty : flag_ops.is_dirty true ≡ (true, true)
unfolding flag_ops
flag_dirty = refl

sample_extract : extract_model_dirty sample_ops sample_backend true ≡ ok (some (1 ∷ []), true)
unfolding extract_model_dirty extract_with flag_ops
sample_extract = refl

on_stop_lem_example :
    (o : Option BdError × Run ℕ) × Saved sample_ops sample_backend
      (update_op sample_ops sample_backend true (some (1 ∷ []), true))
      0
      (record { bd = 2; slept = 0 })
      4
      o
    × (on_stop flag_ops sample_ops sample_backend sample_timers (λ m. m) waiting_actor
        ≡ stopped flag_ops sample_ops sample_backend sample_timers (λ m. m) waiting_actor o)
on_stop_lem_example =
    on_stop_lem flag_ops sample_ops sample_backend sample_timers (λ m. m) waiting_actor
      (some (1 ∷ []), true) (unfold flag_ops in refl) sample_extract
