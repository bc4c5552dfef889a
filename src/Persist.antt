-- ===== src/Persist.antt =====
-- Loading and saving a model (internal/infra/actor/persist/persist.go).
--
-- The backend (`BD`, over MongoDB) is a parameter: each call of it is a function of its state. A
-- duration is a number of milliseconds; the time that a call sleeps is added up.
pub mod Load
pub mod Save
mod Samples
use Prim.Native.String.{String}
use ggs.Prelude.{
  ℕ, zero, suc, ◌+◌, ◌≡◌, Bool, true, false, Option, none, some, List, [], ◌∷◌, ltb, if◌then◌else◌,
  get_or, length, Result, ok, err,
}
use ggs.Model.Dirty.{DirtyOps}

abbrev pub Bytes : Type 0
Bytes = List ℕ

-- An error of the driver, as far as the code tells them apart.
pub data BdError : Type 0 where
  no_documents network : BdError
  other : ℕ → BdError

pub data PersistError : Type 0 where
  marshal : ℕ → PersistError
  backend : BdError → PersistError

-- Where a model is stored, as `GetHashKey`, `GetCollection` and `GetFilter` say.
pub record ModelKey : Type 0 where
  pub hash_key : String
  pub collection : String
  pub filter : String

-- `mongobd.OpUpdate`; a nil update is `none`.
pub record UpdateOp : Type 0 where
  pub key : ModelKey
  pub update : Option Bytes
  pub upsert : Bool

-- `actor.Model`: `bson.Marshal` of it, and `ModelDirty` if it implements that.
pub record ModelOps (M : Type 0) : Type 0 where
  pub key : M → ModelKey
  pub marshal_model : M → Result ℕ Bytes
  pub dirty : Option (DirtyOps M)

pub record Backend (M : Type 0) : Type 1 where
  pub B : Type 0
  -- `Exec` of an `OpLoad`, which fills its target unless it fails
  pub exec_load : ModelKey → M → B → Result BdError M × B
  -- `Exec` and `Add` of an `OpUpdate`
  pub exec_update : UpdateOp → B → Option BdError × B
  pub add_update : UpdateOp → B → Option BdError × B

abbrev pub persist_retry_delays : List ℕ
persist_retry_delays = 0 ∷ 200 ∷ 500 ∷ 1000 ∷ []

-- The milliseconds that `persistRetrySleep` sleeps.
unfoldable pub persist_retry_sleep : ℕ → ℕ
persist_retry_sleep retry =
    if ltb retry (length persist_retry_delays)
    then get_or persist_retry_delays retry 0
    else get_or persist_retry_delays 3 0

-- What one call leaves: the backend, and the time slept so far.
pub record Run (B : Type 0) : Type 0 where
  pub bd : B
  pub slept : ℕ

-- A call in round `i`: first the sleep of that round, then the backend's new state.
abbrev pub after_round : {B : Type 0} → ℕ → Run B → B → Run B
after_round i run bd = record { bd = bd; slept = run.slept + persist_retry_sleep i }

-- What `n` rounds from round `i` sleep.
abbrev pub slept_from : ℕ → ℕ → ℕ
slept_from i zero = 0
slept_from i (suc n) = persist_retry_sleep i + slept_from (suc i) n

abbrev pub is_network : BdError → Bool
is_network network = true
is_network _ = false

abbrev pub is_no_documents : BdError → Bool
is_no_documents no_documents = true
is_no_documents _ = false

module _ {M : Type 0} (ops : ModelOps M) (b : Backend M) where
  open b use {B}

  -- The loop of `LoadModel` from round `i`, with `rounds` left; its last error and the model.
  unfoldable pub load_rounds : ℕ → ℕ → Option BdError → M → Run B → (Option BdError × M) × Run B
  load_rounds zero i last m run = ((last, m), run)
  load_rounds (suc rounds) i last m run =
      let (r, bd) = b.exec_load (ops.key m) m run.bd in
      let run' = after_round i run bd in
      elim r [
        | ok m' ↦ ((none, m'), run')
        | err e ↦ elim (is_network e) [
          | true ↦ load_rounds rounds (suc i) (some e) m run'
          | false ↦ ((some e, m), run')
        ]
      ]

  -- `LoadModel`: whether the document exists, and the error, which it never sets.
  unfoldable pub load_result : Option BdError → Bool × Option BdError
  load_result none = (true, none)
  load_result (some e) = if is_no_documents e then (false, none) else (true, none)

  unfoldable pub load_model : M → B → (Bool × Option BdError) × M × Run B
  unfolding load_result
  load_model m bd =
      let ((last, m'), run) =
        load_rounds (length persist_retry_delays) 0 none m (record { bd = bd; slept = 0 }) in
      (load_result last, m', run)

  unfoldable pub extract_with : DirtyOps M → M → Bool × Bool → Result ℕ (Option Bytes × Bool)
  extract_with d m (false, all) = ok (none, false)
  extract_with d m (true, true) = elim (ops.marshal_model m) [
    | ok u ↦ ok (some u, true)
    | err e ↦ err e
  ]
  extract_with d m (true, false) = elim (d.marshal_dirty m) [
    | ok u ↦ ok (some u, false)
    | err e ↦ err e
  ]

  -- `extractModelDirty`: the update, and whether it may insert.
  unfoldable pub extract_model_dirty : M → Result ℕ (Option Bytes × Bool)
  unfolding extract_with
  extract_model_dirty m = elim ops.dirty [
    | none ↦ elim (ops.marshal_model m) [ ok u ↦ ok (some u, true) | err e ↦ err e ]
    | some d ↦ extract_with d m (d.is_dirty m)
  ]

  unfoldable pub clear_model_dirty : M → M
  clear_model_dirty m = elim ops.dirty [ none ↦ m | some d ↦ d.clear_dirty m ]

  abbrev pub update_op : M → Option Bytes × Bool → UpdateOp
  update_op m (update, upsert) = record { key = ops.key m; update = update; upsert = upsert }

  -- The loop of `SaveModel`.
  unfoldable pub save_rounds : ℕ → ℕ → UpdateOp → Option BdError → Run B → Option BdError × Run B
  save_rounds zero i op last run = (last, run)
  save_rounds (suc rounds) i op last run =
      let (r, bd) = b.exec_update op run.bd in
      let run' = after_round i run bd in
      elim r [ none ↦ (none, run') | some e ↦ save_rounds rounds (suc i) op (some e) run' ]

  save_result : M → Option BdError × Run B → Option PersistError × M × Run B
  unfolding clear_model_dirty
  save_result m (none, run) = (none, clear_model_dirty m, run)
  save_result m (some e, run) = (some (backend e), m, run)

  pub save_model : M → B → Option PersistError × M × Run B
  unfolding save_result
  save_model m bd = elim (extract_model_dirty m) [
    | err e ↦ (some (marshal e), m, record { bd = bd; slept = 0 })
    | ok u ↦ save_result m (
        save_rounds (length persist_retry_delays) 0 (update_op m u) none
          (record { bd = bd; slept = 0 }))
  ]

  -- `AsyncSaveModel`: the operation that the backend has taken, or the error.
  unfoldable pub async_save_model : M → B → Result PersistError UpdateOp × B
  async_save_model m bd = elim (extract_model_dirty m) [
    | err e ↦ (err (marshal e), bd)
    | ok u ↦
        let (r, bd') = b.add_update (update_op m u) bd in
        (elim r [ none ↦ ok (update_op m u) | some e ↦ err (backend e) ], bd')
  ]
