-- ===== src/App/Agent/Safe.antt =====
-- No goroutine of the agent meets a field that is not set.
use ggs.Prelude.{◌≡◌, true, ◌&&◌, [], ◌∷◌}
use ggs.App.{late_calls, agents, actors, cluster}
use ggs.App.Agent.{App, stop, Callback, is_enabled, is_safe}

-- What can be called is safe.
abbrev pub IsSafe : App → Type 0
IsSafe a = (c : Callback) → is_enabled c a ≡ true → is_safe c a ≡ true

-- Every field is set, but for the server of the profiles, and which calls `Stop` lets come too late.
abbrev pub IsUp : App → Type 0
IsUp a =
    (a.config && a.env && a.redis_client && a.secret_decryptor && a.actor_registry ≡ true)
    × (a.actor_client && a.node_selector && a.cluster && a.listener && a.serving && a.listening
        ≡ true)
    × (late_calls (stop a) ≡ (actors, agents) ∷ (cluster, actors) ∷ [])
