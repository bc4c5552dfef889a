-- ===== src/Mongo/Samples.antt =====
-- Two collections and two operations, and the theorems at work on them.
use ggs.Prelude.{
  ℕ, ◌+◌, ◌≡◌, refl, false, ◌⊎◌, true, false, Option, none, some, List, [], ◌∷◌, arith,
}
use ggs.Prelude.Map.{Map}
use Prim.Native.String.{String}
use ggs.Mongo.Indexes.{
  ensure_indexes, indexes_empty, IsRefused, AreRegistered, Ended, ensure_indexes_cases,
}
use ggs.Mongo.Consumers.{Bd, takes, finishes, ends, Steps, none_yet, then_step, stop}

abbrev sample_indexes : Map String (List ℕ)
sample_indexes = ("item", 1 ∷ 2 ∷ []) ∷ ("player", 3 ∷ []) ∷ []

abbrev sample_creation : String → List ℕ → ℕ → Option String × ℕ
sample_creation col is n = (none, n + 1)

ensure_indexes_cases_example :
    ((col : String) × IsRefused sample_creation sample_indexes ("player" ∷ "item" ∷ []) col
      × (ensure_indexes sample_creation sample_indexes true true true ("player" ∷ "item" ∷ []) 0
          ≡ (some (indexes_empty col), 0)))
    ⊎ (AreRegistered sample_creation sample_indexes ("player" ∷ "item" ∷ [])
        × Ended sample_creation sample_indexes ("player" ∷ "item" ∷ []) 0 (
            ensure_indexes sample_creation sample_indexes true true true
              ("player" ∷ "item" ∷ [])
              0))
ensure_indexes_cases_example =
    ensure_indexes_cases sample_creation sample_indexes ("player" ∷ "item" ∷ []) 0

-- Two consumers, and an operation that waits.
abbrev sample_bd : Bd
sample_bd = record { done = 10 ∷ []; running = []; taken = []; consumers = 2; closed = false }

-- The callback of the second operation ends before that of the first.
abbrev sample_run : (c : Bd) × Steps 6 (stop (11 ∷ []) sample_bd) c
unfolding stop
sample_run = (
  _,
  then_step (takes 10 (11 ∷ []) refl (omega arith)) (
      then_step (takes 11 [] refl (omega arith)) (
        then_step (finishes 11 [] (10 ∷ []) refl) (
          then_step (ends refl refl (omega arith)) (
            then_step (finishes 10 [] [] refl)
              (then_step (ends refl refl (omega arith)) none_yet))))),
)
