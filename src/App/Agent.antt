-- ===== src/App/Agent.antt =====
-- The start and the stop of the agent (app/agent/internal/app).
pub mod Safe
use ggs.Prelude.{
  ◌≡◌, Bool, true, false, not, ◌||◌, ◌&&◌, Option, List, [], ◌∷◌, if◌then◌else◌, ℕ, ltb, ◌==◌,
}
use ggs.App.{
  Failure, load_config, init_redis, init_crypto, start_actor, start_cluster, start_listening, Run,
  started, assign, attempt, Service, http_server, listener, agents, actors, cluster, redis,
  closed_if,
}

-- Which calls of libraries work, and the ports of the configuration.
pub record Outcomes : Type 0 where
  pub config_loads : Bool
  pub redis_connects : Bool
  pub decryptor_loads : Bool
  pub registry_opens : Bool
  pub cluster_is_made : Bool
  pub cluster_starts : Bool
  pub listens : Bool
  pub cluster_port : ℕ
  pub port : ℕ
  pub http_port : ℕ
  pub enable_pprof : Bool

-- `app`: which fields are set; `serving` and `listening` say that the cluster, and the loop that
-- accepts connections, run.
pub record App : Type 0 where
  pub config : Bool
  pub env : Bool
  pub redis_client : Bool
  pub secret_decryptor : Bool
  pub actor_registry : Bool
  pub actor_client : Bool
  pub node_selector : Bool
  pub cluster : Bool
  pub listener : Bool
  pub http_server : Bool
  pub serving : Bool
  pub listening : Bool

abbrev pub new_app : App
new_app = record {
  config = false;
  env = false;
  redis_client = false;
  secret_decryptor = false;
  actor_registry = false;
  actor_client = false;
  node_selector = false;
  cluster = false;
  listener = false;
  http_server = false;
  serving = false;
  listening = false;
}

module _ (o : Outcomes) where
  -- `startHttp`
  abbrev pub start_http : App → Run App
  start_http a =
      let b = record a { http_server = true } in
      if o.http_port == 0 || not o.enable_pprof then started a else assign (λ _. b) started a

  -- `startListen`
  abbrev pub start_listen : (App → Run App) → App → Run App
  start_listen next =
      attempt (not (o.port == 0)) start_listening (λ a. a)
        (attempt o.listens start_listening (λ a. record a { listener = true })
          (assign (λ a. record a { listening = true }) next))

  -- `startCluster`
  abbrev pub start_cluster_service : (App → Run App) → App → Run App
  start_cluster_service next =
      attempt (not (o.cluster_port == 0)) start_cluster (λ a. a)
        (attempt o.cluster_is_made start_cluster (λ a. a)
          (attempt o.cluster_starts start_cluster (λ a. record a { serving = true })
            (assign (λ a. record a { cluster = true }) next)))

  -- `startActor`
  abbrev pub start_actor_client : (App → Run App) → App → Run App
  start_actor_client next =
      attempt o.registry_opens start_actor (λ a. record a { actor_registry = true })
        (assign (λ a. record a { actor_client = true }) next)

  -- `Start`, from the new application on
  unfoldable pub start : App → Run App
  start =
      attempt o.config_loads load_config (λ a. record a { config = true })
        (assign (λ a. record a { env = true })
          (attempt o.redis_connects init_redis (λ a. record a { redis_client = true })
            (attempt o.decryptor_loads init_crypto (λ a. record a { secret_decryptor = true })
              (start_actor_client (
                assign (λ a. record a { node_selector = true })
                  (start_cluster_service (start_listen start_http)))))))

-- `Stop`: what it closes, in this order
unfoldable pub stop : App → List Service
stop a =
    closed_if a.http_server http_server
      (listener ∷ agents ∷ actors ∷ cluster ∷ closed_if a.redis_client redis [])

-- What other goroutines call: the cluster's, `OnNodeBytes`, `OnNodeEvents` and `OnNodesSync`; the
-- client's, `Send2Node`, for an agent; and `handleConn` for a connection.
pub data Callback : Type 0 where
  on_node_bytes on_node_events on_nodes_sync send_to_node handle_conn : Callback

-- When it can be called
abbrev pub is_enabled : Callback → App → Bool
is_enabled on_node_bytes a = a.serving
is_enabled on_node_events a = a.serving
is_enabled on_nodes_sync a = a.serving
is_enabled send_to_node a = a.listening
is_enabled handle_conn a = a.listening

-- Whether the fields whose methods it calls are set: for a connection, those of the key exchange and
-- of the login.
abbrev pub is_safe : Callback → App → Bool
is_safe on_node_bytes a = a.actor_client
is_safe on_node_events a = a.node_selector
is_safe on_nodes_sync a = a.node_selector
is_safe send_to_node a = a.cluster
is_safe handle_conn a =
    a.secret_decryptor && a.actor_registry && a.actor_client && a.node_selector && a.cluster
