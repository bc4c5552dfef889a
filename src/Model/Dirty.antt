-- ===== src/Model/Dirty.antt =====
-- The two collectors of dirty data, and what a saver may rely on (internal/infra/actor/model/dirty.go).
use Prim.Native.String.{String}
use ggs.Prelude.{
  ℕ, ◌≡◌, refl, Bool, true, false, ◌||◌, Option, none, some, Option-cases, inl, inr, List, [],
  arith, if◌then◌else◌, Result, err,
}
use ggs.Prelude.Map.{Map, string_eq, lookup, insert, nonempty, nonempty-insert, lookup-insert}

-- `actor.ModelDirty` and the package's `SetAllDirty`. `is_dirty` answers (dirty, all).
pub record DirtyOps (M : Type 0) : Type 0 where
  pub is_dirty : M → Bool × Bool
  pub clear_dirty : M → M
  pub set_all_dirty : M → M
  pub marshal_dirty : M → Result ℕ (List ℕ)

-- What the savers rely on: clearing leaves nothing dirty, and marking all is seen as such.
pub record IsModelDirty {M : Type 0} (d : DirtyOps M) : Type 0 where
  pub clears : (m : M) → d.is_dirty (d.clear_dirty m) ≡ (false, false)
  pub sets_all : (m : M) → d.is_dirty (d.set_all_dirty m) ≡ (true, true)
  pub all_dirty : (m : M) → (d.is_dirty m).1 ≡ true → (d.is_dirty m).0 ≡ true

-- `Dirty`, one bit for the whole model. `MarshalBSONDirty` is not to be called: its error is 0.
unfoldable pub flag_ops : DirtyOps Bool
flag_ops = record {
  is_dirty = λ d. (d, d);
  clear_dirty = λ _. false;
  set_all_dirty = λ _. true;
  marshal_dirty = λ _. err 0;
}

pub flag_ops-IsModelDirty : IsModelDirty flag_ops
unfolding flag_ops
flag_ops-IsModelDirty = record { clears = λ _. refl; sets_all = λ _. refl; all_dirty = λ _ h. h }

-- `Dirties`: changed parts by their path in the document, or all of it. `none` is the nil map that
-- `Release` leaves.
pub record Dirties (V : Type 0) : Type 0 where
  pub dirties : Option (Map String V)
  pub all : Bool

module _ {V : Type 0} where
  abbrev pub new_dirties : Dirties V
  new_dirties = record { dirties = some []; all = false }

  -- `none` is the panic of a write to a nil map.
  unfoldable pub set_dirty : String → V → Dirties V → Option (Dirties V)
  set_dirty key value d = elim d.dirties [
    | none ↦ none
    | some t ↦ some (record d { dirties = some (insert key value t) })
  ]

  unfoldable pub set_all_dirty : Dirties V → Dirties V
  set_all_dirty d = record d { all = true }

  unfoldable pub is_dirty : Dirties V → Bool × Bool
  is_dirty d = (d.all || elim d.dirties [ none ↦ false | some t ↦ nonempty t ], d.all)

  unfoldable pub clear_dirty : Dirties V → Dirties V
  clear_dirty d = record { dirties = some []; all = false }

  unfoldable pub release : Dirties V → Dirties V
  release d = record d { dirties = none }

  -- A part that was marked makes the model dirty, and is found under its key.
  pub set_dirty_effect :
      (key j : String) (value : V) (d d' : Dirties V)
      → set_dirty key value d ≡ some d'
      → (t : Map String V) × (t' : Map String V) × (d.dirties ≡ some t)
        × (d'.dirties ≡ some t')
        × (lookup j t' ≡ (if string_eq.beq key j then some value else lookup j t))
        × (is_dirty d' ≡ (true, d.all))
  unfolding set_dirty is_dirty
  set_dirty_effect key j value d d' h = elim (Option-cases d.dirties) [
    | inl e ↦ ground arith
    | inr (t, e) ↦ (
      t,
      insert key value t,
      e,
      ground arith,
      lookup-insert key j value t,
      ground (arith, nonempty-insert key value t),
    )
  ]

-- `Dirties` keeps the contract; `marshal` is `bson.Marshal` of the marked parts.
abbrev pub dirties_ops :
    {V : Type 0} → (Option (Map String V) → Result ℕ (List ℕ)) → DirtyOps (Dirties V)
dirties_ops marshal = record {
  is_dirty = is_dirty;
  clear_dirty = clear_dirty;
  set_all_dirty = set_all_dirty;
  marshal_dirty = λ d. marshal d.dirties;
}

pub dirties_ops-IsModelDirty :
    {V : Type 0} (marshal : Option (Map String V) → Result ℕ (List ℕ))
    → IsModelDirty (dirties_ops marshal)
unfolding is_dirty clear_dirty set_all_dirty
dirties_ops-IsModelDirty marshal = record {
  clears = λ _. refl;
  sets_all = λ _. refl;
  all_dirty = λ m h. ground arith;
}
