-- ===== src/App/Game/Safe.antt =====
-- Which goroutines of the game server can meet a field that is not set.
use ggs.Prelude.{◌≡◌, true, false, ◌&&◌, [], ◌∷◌}
use ggs.App.{late_calls, actors, cluster, mongobd}
use ggs.App.Game.{App, stop, Callback, is_enabled, is_safe, waits_for_start}

-- What can be called is safe, but for calls to other nodes.
abbrev pub IsSafe : App → Type 0
IsSafe a = (c : Callback) → waits_for_start c ≡ false → is_enabled c a ≡ true → is_safe c a ≡ true

-- Every field is set, but for the server of the probes, every call is safe, and which
-- calls `Stop` lets come too late.
abbrev pub IsUp : App → Type 0
IsUp a =
    (a.config && a.env && a.redis_client && a.mongo_client && a.mongobd && a.gdconf ≡ true)
    × (a.actor_proto_reg && a.actor_registry && a.actor_server_store && a.actor_router ≡ true)
    × (a.actor_service && a.actor_codec && a.cluster && a.acting && a.serving ≡ true)
    × ((c : Callback) → is_safe c a ≡ true)
    × (late_calls (stop a) ≡ (mongobd, actors) ∷ (cluster, actors) ∷ [])
