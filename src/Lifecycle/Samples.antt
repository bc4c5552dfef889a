-- ===== src/Lifecycle/Samples.antt =====
-- Handlers of two categories, and the theorem at work on them.
use mathlib.Core.List.Memᴰ.{head, tail}
use ggs.Prelude.{ℕ, ◌+◌, ◌≡◌, refl, none, some, List, [], ◌∷◌}
use ggs.Prelude.Map.{Map}
use ggs.Lifecycle.{Callbacks, Handler, plain, client, register_handler, register_all}
use ggs.Lifecycle.Register.{IsServed, register_all_lem}

abbrev counting : Callbacks ℕ ℕ
counting = record {
  Actor = ℕ;
  as_actor = some;
  on_start = λ s. (none, s + 1);
  on_stop = λ s. s + 10;
}

abbrev counting_client : Handler ℕ ℕ
counting_client =
    client (record { base = counting; on_connected = λ s. s + 100; on_disconnected = λ s. 0 })

abbrev sample_handlers : List (ℕ × Handler ℕ ℕ)
sample_handlers = (1, plain counting) ∷ (2, counting_client) ∷ []

register_all_lem_example :
    (m : Map ℕ (Handler ℕ ℕ)) × (register_all sample_handlers [] ≡ some m)
    × IsServed m 2 counting_client 5 5
    × ((other : Handler ℕ ℕ) → register_handler 2 other m ≡ none)
register_all_lem_example =
    register_all_lem sample_handlers 2 counting_client 5 5 ((refl, tt), (tt, tt)) (tail (head refl))
      refl
