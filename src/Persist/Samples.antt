-- ===== src/Persist/Samples.antt =====
-- A model of one flag, a backend that fails twice, and the theorems at work on them.
use ggs.Prelude.{
  ℕ, zero, suc, ◌≤◌, ◌<◌, ◌≡◌, refl, Bool, true, false, Option, none, some, [], ◌∷◌, arith, ltb,
  if◌then◌else◌, Result, ok, err,
}
use ggs.Model.Dirty.{flag_ops}
use ggs.Persist.{
  BdError, network, ModelKey, ModelOps, Backend, Run, slept_from, extract_model_dirty, extract_with,
  update_op, load_model, save_model,
}
use ggs.Persist.Load.{attempt, load_tries, load_model_lem}
use ggs.Persist.Save.{Saved, report, save_model_lem}

abbrev sample_key : ModelKey
sample_key = record { hash_key = "player/5"; collection = "player"; filter = "5" }

abbrev sample_ops : ModelOps Bool
sample_ops = record {
  key = λ _. sample_key;
  marshal_model = λ m. ok (1 ∷ []);
  dirty = some flag_ops;
}

-- The state counts the calls; the first two fail on the network.
abbrev flaky_load : ℕ → Result BdError Bool × ℕ
flaky_load n = (if ltb n 2 then err network else ok true, suc n)

abbrev flaky_update : ℕ → Option BdError × ℕ
flaky_update n = (if ltb n 2 then some network else none, suc n)

abbrev flaky_backend : Backend Bool
flaky_backend = record {
  B = ℕ;
  exec_load = λ _ _ n. flaky_load n;
  exec_update = λ _ n. flaky_update n;
  add_update = λ _ n. (none, suc n);
}

-- No call gets through.
abbrev dead_backend : Backend Bool
dead_backend = record {
  B = ℕ;
  exec_load = λ _ _ n. (err network, suc n);
  exec_update = λ _ n. (some network, suc n);
  add_update = λ _ n. (some network, suc n);
}

two_failures :
    (j : ℕ)
    → j < 2
    → (attempt sample_ops flaky_backend false (load_tries sample_ops flaky_backend false j 0)).0
      ≡ err network
two_failures zero h = refl
two_failures (suc zero) h = refl
two_failures (suc (suc j)) h = absurd (omega arith)

load_model_lem_example :
    load_model sample_ops flaky_backend false 0
    ≡ ((true, none), true, record { bd = 3; slept = slept_from 0 3 })
load_model_lem_example =
    load_model_lem sample_ops flaky_backend false 2 0 3 (ok true) (omega arith) two_failures refl
      refl

extract_model_dirty_test :
    (b : Backend Bool) → extract_model_dirty sample_ops b true ≡ ok (some (1 ∷ []), true)
unfolding extract_model_dirty extract_with flag_ops
extract_model_dirty_test b = refl

save_model_lem_example :
    (o : Option BdError × Run ℕ) × Saved sample_ops flaky_backend
      (update_op sample_ops flaky_backend true (some (1 ∷ []), true))
      0
      (record { bd = 0; slept = 0 })
      4
      o
    × (o.1.slept ≤ 1700)
    × (save_model sample_ops flaky_backend true 0 ≡ report sample_ops flaky_backend true o)
save_model_lem_example =
    save_model_lem sample_ops flaky_backend true 0 (some (1 ∷ []), true)
      (extract_model_dirty_test flaky_backend)
