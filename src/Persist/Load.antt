-- ===== src/Persist/Load.antt =====
-- What `LoadModel` promises: it retries network errors, and reports no error whatever happens.
use ggs.Prelude.{
  ℕ, zero, suc, ◌+◌, ◌<◌, ◌≡◌, refl, Bool, true, false, Option, none, some, arith, ap, ◌∙◌, Result,
  ok, err,
}
use ggs.Persist.{
  BdError, network, no_documents, other, ModelOps, Backend, Run, after_round, slept_from,
  load_rounds, load_result, load_model, persist_retry_sleep,
}

module _ {M : Type 0} (ops : ModelOps M) (b : Backend M) (m : M) where
  open b use {B}

  -- One call, and the backend after `n` calls.
  abbrev pub attempt : B → Result BdError M × B
  attempt bd = b.exec_load (ops.key m) m bd

  abbrev pub load_tries : ℕ → B → B
  load_tries zero bd = bd
  load_tries (suc n) bd = load_tries n (attempt bd).1

  abbrev pub error_of : Result BdError M → Option BdError
  error_of (ok _) = none
  error_of (err e) = some e

  abbrev pub loaded : Result BdError M → M
  loaded (ok m') = m'
  loaded (err _) = m

  -- Nothing is left to retry: the call did not fail on the network.
  abbrev pub settled : Result BdError M → Bool
  settled (err network) = false
  settled _ = true

  load_rounds-settled :
      (rounds i : ℕ) (last : Option BdError) (run : Run B)
      → settled (attempt run.bd).0 ≡ true
      → load_rounds ops b (suc rounds) i last m run ≡ (
        (error_of (attempt run.bd).0, loaded (attempt run.bd).0),
        after_round i run (attempt run.bd).1,
      )
  unfolding load_rounds
  load_rounds-settled rounds i last run h = ground arith

  load_rounds_network :
      (rounds i : ℕ) (last : Option BdError) (run : Run B)
      → (attempt run.bd).0 ≡ err network
      → load_rounds ops b (suc rounds) i last m run
        ≡ load_rounds ops b rounds (suc i) (some network) m (after_round i run (attempt run.bd).1)
  unfolding load_rounds
  load_rounds_network rounds i last run h = rw (h, load_rounds)

  load_rounds_lem :
      (k rounds i : ℕ) (last : Option BdError) (run : Run B) (r : Result BdError M) (bd' : B)
      → k < rounds
      → ((j : ℕ) → j < k → (attempt (load_tries j run.bd)).0 ≡ err network)
      → attempt (load_tries k run.bd) ≡ (r, bd')
      → settled r ≡ true
      → load_rounds ops b rounds i last m run
        ≡ ((error_of r, loaded r), record { bd = bd'; slept = run.slept + slept_from i (suc k) })
  load_rounds_lem k zero i last run r bd' h before e s = absurd (omega arith)
  load_rounds_lem zero (suc rounds) i last run r bd' h before e s =
      let sum : run.slept + persist_retry_sleep i ≡ run.slept + (persist_retry_sleep i + 0) =
        omega arith in
      load_rounds-settled rounds i last run (ap settled (ap (λ p. p.0) e) ∙ s)
      ∙ ap (λ p. ((error_of p.0, loaded p.0), after_round i run p.1)) e
      ∙ ap (λ t. ((error_of r, loaded r), record { bd = bd'; slept = t })) sum
  load_rounds_lem (suc k) (suc rounds) i last run r bd' h before e s =
      let sum : (run.slept + persist_retry_sleep i) + slept_from (suc i) (suc k)
          ≡ run.slept + (persist_retry_sleep i + slept_from (suc i) (suc k)) =
        omega arith in
      load_rounds_network rounds i last run (before 0 (omega arith))
      ∙ load_rounds_lem k rounds (suc i) (some network) (after_round i run (attempt run.bd).1) r bd'
          (omega arith) (λ j lt. before (suc j) (omega arith)) e s
      ∙ ap (λ t. ((error_of r, loaded r), record { bd = bd'; slept = t })) sum

  load_rounds_spent :
      (rounds i : ℕ) (run : Run B)
      → ((j : ℕ) → j < rounds → (attempt (load_tries j run.bd)).0 ≡ err network)
      → load_rounds ops b rounds i (some network) m run ≡ (
        (some network, m),
        record { bd = load_tries rounds run.bd; slept = run.slept + slept_from i rounds },
      )
  unfolding load_rounds
  load_rounds_spent zero i run all =
      let sum : run.slept ≡ run.slept + 0 = omega arith in
      ap (λ t. ((some network, m), record { bd = run.bd; slept = t })) sum
  load_rounds_spent (suc rounds) i run all =
      let sum : (run.slept + persist_retry_sleep i) + slept_from (suc i) rounds
          ≡ run.slept + (persist_retry_sleep i + slept_from (suc i) rounds) =
        omega arith in
      load_rounds_network rounds i (some network) run (all 0 (omega arith))
      ∙ load_rounds_spent rounds (suc i) (after_round i run (attempt run.bd).1)
          (λ j lt. all (suc j) (omega arith))
      ∙ ap
          (λ t.
            ((some network, m), record { bd = load_tries rounds (attempt run.bd).1; slept = t }))
          sum

  -- What `LoadModel` answers when its last call answers `r`.
  abbrev pub load_report : Result BdError M → Bool × Option BdError
  load_report (ok _) = (true, none)
  load_report (err no_documents) = (false, none)
  load_report (err network) = (true, none)
  load_report (err (other _)) = (true, none)

  load_result_lem : (r : Result BdError M) → load_result ops b (error_of r) ≡ load_report r
  unfolding load_result
  load_result_lem (ok m') = refl
  load_result_lem (err no_documents) = refl
  load_result_lem (err network) = refl
  load_result_lem (err (other n)) = refl

  -- When the calls before call `k` fail on the network and call `k` of the four does not, `LoadModel`
  -- makes no further call, has slept the delays of the rounds up to `k`, and answers that the model
  -- exists unless call `k` found no document. It reports no error, also where call `k` failed for
  -- another reason and the model has not been read.
  pub load_model_lem :
      (k : ℕ) (bd bd' : B) (r : Result BdError M)
      → k < 4
      → ((j : ℕ) → j < k → (attempt (load_tries j bd)).0 ≡ err network)
      → attempt (load_tries k bd) ≡ (r, bd')
      → settled r ≡ true
      → load_model ops b m bd
        ≡ (load_report r, loaded r, record { bd = bd'; slept = slept_from 0 (suc k) })
  unfolding load_model
  load_model_lem k bd bd' r h before e s =
      let sum : 0 + slept_from 0 (suc k) ≡ slept_from 0 (suc k) = omega arith in
      ap (λ p. (load_result ops b p.0.0, p.0.1, p.1))
        (load_rounds_lem k 4 0 none (record { bd = bd; slept = 0 }) r bd' h before e s)
      ∙ ap (λ t. (t, loaded r, record { bd = bd'; slept = 0 + slept_from 0 (suc k) }))
          (load_result_lem r)
      ∙ ap (λ t. (load_report r, loaded r, record { bd = bd'; slept = t })) sum

  -- When all four calls fail on the network, `LoadModel` has slept 1.7 seconds and still answers that
  -- the model exists and that there was no error; the model is as it was before.
  load_model_network :
      (bd : B)
      → ((j : ℕ) → j < 4 → (attempt (load_tries j bd)).0 ≡ err network)
      → load_model ops b m bd ≡ ((true, none), m, record { bd = load_tries 4 bd; slept = 1700 })
  unfolding load_model load_result persist_retry_sleep
  load_model_network bd all =
      ap (λ p. (load_result ops b p.0.0, p.0.1, p.1))
        (load_rounds_network 3 0 none (record { bd = bd; slept = 0 }) (all 0 (omega arith))
          ∙ load_rounds_spent 3 1 (after_round 0 (record { bd = bd; slept = 0 }) (attempt bd).1)
              (λ j lt. all (suc j) (omega arith)))
