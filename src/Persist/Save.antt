-- ===== src/Persist/Save.antt =====
-- What `SaveModel` and `extractModelDirty` promise.
use ggs.Prelude.{
  ℕ, zero, suc, ◌+◌, ◌≤◌, ◌<◌, ◌≢◌, ◌≡◌, refl, Bool, Option, none, some, inl, inr, arith, ap, ◌∙◌,
  ok, Option-cases,
}
use native.Mathlib.Decide.{dec_lt}
use ggs.Persist.{
  Bytes, BdError, PersistError, backend, ModelOps, Backend, UpdateOp, Run, persist_retry_sleep,
  extract_model_dirty, clear_model_dirty, update_op, save_rounds, save_result, save_model,
  slept_from, after_round, slept_from,
}

module _ {M : Type 0} (ops : ModelOps M) (b : Backend M) where
  open b use {B}

  -- The backend after `n` calls with the operation.
  abbrev pub tries : UpdateOp → ℕ → B → B
  tries op zero bd = bd
  tries op (suc n) bd = tries op n (b.exec_update op bd).1

  -- The last call of a run of rounds has the outcome of the run, and the first call that takes the
  -- operation ends it.
  pub record Saved (op : UpdateOp) (i : ℕ) (run : Run B) (rounds : ℕ) (r : Option BdError × Run B)
      : Type 0 where
    pub calls : ℕ
    pub within : calls < rounds
    pub last : b.exec_update op (tries op calls run.bd) ≡ (r.0, r.1.bd)
    pub first : (k : ℕ) → k < calls → (b.exec_update op (tries op k run.bd)).0 ≢ none
    pub time : r.1.slept ≡ run.slept + slept_from i (suc calls)
    pub all : r.0 ≢ none → suc calls ≡ rounds

  module _ (op : UpdateOp) (i : ℕ) (run : Run B) where
    Saved-here :
        (rounds : ℕ) (r : Option BdError × Run B)
        → (b.exec_update op run.bd).0 ≡ r.0
        → r.1 ≡ after_round i run (b.exec_update op run.bd).1
        → (r.0 ≢ none → 1 ≡ suc rounds)
        → Saved op i run (suc rounds) r
    Saved-here rounds r e t all = record {
      calls = 0;
      within = omega arith;
      last = ground arith;
      first = λ k h. absurd (omega arith);
      time = rw t (omega arith);
      all = all;
    }

    Saved-later :
        (rounds : ℕ) (r : Option BdError × Run B)
        → (b.exec_update op run.bd).0 ≢ none
        → Saved op (suc i) (after_round i run (b.exec_update op run.bd).1) rounds r
        → Saved op i run (suc rounds) r
    Saved-later rounds r e s = record {
      calls = suc s.calls;
      within = omega arith;
      last = s.last;
      first = first;
      time = s.time ∙ omega arith;
      all = λ h. ap suc (s.all h);
    }
      where
        first : (k : ℕ) → k < suc s.calls → (b.exec_update op (tries op k run.bd)).0 ≢ none
        first zero h = e
        first (suc k) h = s.first k (omega arith)

  module _ (op : UpdateOp) (i : ℕ) (last : Option BdError) (run : Run B) (rounds : ℕ) where
    save_rounds_taken :
        (b.exec_update op run.bd).0 ≡ none
        → save_rounds ops b (suc rounds) i op last run
          ≡ (none, after_round i run (b.exec_update op run.bd).1)
    unfolding save_rounds
    save_rounds_taken e = rw (e, save_rounds)

    save_rounds_refused :
        (x : BdError)
        → (b.exec_update op run.bd).0 ≡ some x
        → save_rounds ops b (suc rounds) i op last run
          ≡ save_rounds ops b rounds
              (suc i)
              op
              (some x)
              (after_round i run (b.exec_update op run.bd).1)
    unfolding save_rounds
    save_rounds_refused x e = rw (e, save_rounds)

  save_rounds-Saved :
      (rounds i : ℕ) (op : UpdateOp) (last : Option BdError) (run : Run B)
      → Saved op i run (suc rounds) (save_rounds ops b (suc rounds) i op last run)
  unfolding save_rounds
  save_rounds-Saved zero i op last run = elim (Option-cases (b.exec_update op run.bd).0) [
    | inl e ↦ rw (save_rounds_taken op i last run 0 e) (Saved-here op i run 0 _ e refl (λ h. refl))
    | inr (x, e) ↦
        rw (save_rounds_refused op i last run 0 x e) (Saved-here op i run 0 _ e refl (λ h. refl))
  ]
  save_rounds-Saved (suc rounds) i op last run = elim (Option-cases (b.exec_update op run.bd).0) [
    | inl e ↦
        rw (save_rounds_taken op i last run (suc rounds) e)
          (Saved-here op i run (suc rounds) _ e refl (λ h. absurd (h refl)))
    | inr (x, e) ↦ rw (save_rounds_refused op i last run (suc rounds) x e) (
        Saved-later op i run (suc rounds) _ (λ h. cc)
          (save_rounds-Saved rounds (suc i) op (some x)
            (after_round i run (b.exec_update op run.bd).1)))
  ]

  -- All rounds together sleep 1.7 seconds at most.
  slept_bound : (n : ℕ) → n ≤ 4 → slept_from 0 n ≤ 1700
  unfolding persist_retry_sleep
  slept_bound zero h = omega arith
  slept_bound (suc zero) h = omega arith
  slept_bound (suc (suc zero)) h = omega arith
  slept_bound (suc (suc (suc zero))) h = omega arith
  slept_bound (suc (suc (suc (suc zero)))) h = omega arith
  slept_bound (suc (suc (suc (suc (suc n))))) h = absurd (omega arith)

  -- What `SaveModel` answers when its rounds ended with `o`.
  abbrev pub report : M → Option BdError × Run B → Option PersistError × M × Run B
  report m o = elim o.0 [
    | none ↦ (none, clear_model_dirty ops b m, o.1)
    | some e ↦ (some (backend e), m, o.1)
  ]

  save_result-report : (m : M) (o : Option BdError × Run B) → save_result ops b m o ≡ report m o
  unfolding save_result
  save_result-report m (none, run) = refl
  save_result-report m (some e, run) = refl

  -- `SaveModel` calls the backend with the one operation made of the model's dirty data, until a
  -- call takes it and at most four times, sleeping 1.7 seconds at most. When a call took it the
  -- dirty data is cleared and there is no error; otherwise the model is as it was, still dirty.
  pub save_model_lem :
      (m : M) (bd : B) (u : Option Bytes × Bool)
      → extract_model_dirty ops b m ≡ ok u
      → (o : Option BdError × Run B) × Saved
          (update_op ops b m u)
          0
          (record { bd = bd; slept = 0 })
          4
          o
        × (o.1.slept ≤ 1700)
        × (save_model ops b m bd ≡ report m o)
  unfolding save_model
  save_model_lem m bd u e =
      let o = save_rounds ops b 4 0 (update_op ops b m u) none (record { bd = bd; slept = 0 }) in
      let s = save_rounds-Saved 3 0 (update_op ops b m u) none (record { bd = bd; slept = 0 }) in
      (
        o,
        s,
        omega (arith, s.time, s.within, slept_bound (suc s.calls) (omega arith)),
        rw (e, save_model) (save_result-report m o),
      )

  -- If any of the first four calls takes the operation, the save succeeds.
  save_model_retries :
      (m : M) (bd : B) (u : Option Bytes × Bool) (k : ℕ)
      → extract_model_dirty ops b m ≡ ok u
      → k < 4
      → (b.exec_update (update_op ops b m u) (tries (update_op ops b m u) k bd)).0 ≡ none
      → (save_model ops b m bd).0 ≡ none
  save_model_retries m bd u k e h t =
      let (o, s, _, q) = save_model_lem m bd u e in
      let op = update_op ops b m u in
      elim (Option-cases o.0) [
        | inl n ↦ rw q (rw (n, report) refl)
        | inr (x, n) ↦
            let four : suc s.calls ≡ 4 = s.all (λ p. cc) in
            elim (dec_lt k s.calls) [
              | yes less ↦ absurd (s.first k less t)
              | no more ↦
                  let same : s.calls ≡ k = omega arith in
                  let same_try = ap (λ i. (b.exec_update op (tries op i bd)).0) same in
                  cc (ap (λ p. p.0) s.last, same_try, t)
            ]
      ]
