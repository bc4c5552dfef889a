-- ===== src/App/Game.antt =====
-- The start and the stop of the game server (app/game/internal/app).
pub mod Safe
use ggs.Prelude.{◌≡◌, Bool, true, false, not, ◌&&◌, Option, List, [], ◌∷◌, if◌then◌else◌, ℕ, ◌==◌}
use ggs.App.{
  Failure, load_config, init_redis, init_mongo, start_mongobd, load_gdconf, start_actor,
  start_cluster, Run, started, assign, attempt, Service, http_server, actors, cluster, mongobd,
  mongo, redis, closed_if,
}

-- Which calls of libraries and of other components work, and the ports of the configuration.
pub record Outcomes : Type 0 where
  pub config_loads : Bool
  pub redis_connects : Bool
  pub mongo_connects : Bool
  pub mongobd_starts : Bool
  pub gdconf_loads : Bool
  pub registry_opens : Bool
  pub store_opens : Bool
  pub router_is_made : Bool
  pub service_is_made : Bool
  pub codec_is_made : Bool
  pub service_starts : Bool
  pub server_actor_starts : Bool
  pub cluster_port : ℕ
  pub cluster_is_made : Bool
  pub cluster_starts : Bool
  pub http_port : ℕ

-- `app`: which fields are set; `acting` and `serving` say that the actors and the cluster run.
pub record App : Type 0 where
  pub config : Bool
  pub env : Bool
  pub redis_client : Bool
  pub mongo_client : Bool
  pub mongobd : Bool
  pub gdconf : Bool
  pub actor_proto_reg : Bool
  pub actor_registry : Bool
  pub actor_server_store : Bool
  pub actor_router : Bool
  pub actor_service : Bool
  pub actor_codec : Bool
  pub cluster : Bool
  pub http_server : Bool
  pub acting : Bool
  pub serving : Bool

abbrev pub new_app : App
new_app = record {
  config = false;
  env = false;
  redis_client = false;
  mongo_client = false;
  mongobd = false;
  gdconf = false;
  actor_proto_reg = false;
  actor_registry = false;
  actor_server_store = false;
  actor_router = false;
  actor_service = false;
  actor_codec = false;
  cluster = false;
  http_server = false;
  acting = false;
  serving = false;
}

module _ (o : Outcomes) where
  -- `startHttp`
  abbrev pub start_http : App → Run App
  start_http a =
      let b = record a { http_server = true } in
      if o.http_port == 0 then started a else assign (λ _. b) started a

  -- `startCluster`
  abbrev pub start_cluster_service : (App → Run App) → App → Run App
  start_cluster_service next =
      attempt (not (o.cluster_port == 0)) start_cluster (λ a. a)
        (attempt o.cluster_is_made start_cluster (λ a. a)
          (attempt o.cluster_starts start_cluster (λ a. record a { serving = true })
            (assign (λ a. record a { cluster = true }) next)))

  -- `startActor`, with `startGlobalActors` at its end
  abbrev pub start_actor_service : (App → Run App) → App → Run App
  start_actor_service next =
      assign (λ a. record a { actor_proto_reg = true })
        (attempt o.registry_opens start_actor (λ a. record a { actor_registry = true })
          (attempt o.store_opens start_actor (λ a. record a { actor_server_store = true })
            (attempt o.router_is_made start_actor (λ a. record a { actor_router = true })
              (attempt o.service_is_made start_actor (λ a. record a { actor_service = true })
                (attempt o.codec_is_made start_actor (λ a. record a { actor_codec = true })
                  (attempt o.service_starts start_actor (λ a. record a { acting = true })
                    (attempt o.server_actor_starts start_actor (λ a. a) next)))))))

  -- `Start`, from the new application on
  unfoldable pub start : App → Run App
  start =
      attempt o.config_loads load_config (λ a. record a { config = true })
        (assign (λ a. record a { env = true })
          (attempt o.redis_connects init_redis (λ a. record a { redis_client = true })
            (attempt o.mongo_connects init_mongo (λ a. record a { mongo_client = true })
              (attempt o.mongobd_starts start_mongobd (λ a. record a { mongobd = true })
                (attempt o.gdconf_loads load_gdconf (λ a. record a { gdconf = true })
                  (start_actor_service (start_cluster_service start_http)))))))

-- `Stop`: what it closes, in this order
unfoldable pub stop : App → List Service
stop a = closed_if a.http_server http_server (
    actors
    ∷ mongobd
    ∷ closed_if a.mongo_client mongo (closed_if a.redis_client redis (cluster ∷ [])))

-- What other goroutines call: the cluster's `OnNodeBytes`, `OnNodeEvents` and `OnNodesSync`; an actor
-- that saves its model, hears of the save (`actorAsyncSaveCallback`), looks for a route
-- (`getActorServerID`) or sends to a node (`Send2Node`); and a probe.
pub data Callback : Type 0 where
  on_node_bytes on_node_events on_nodes_sync save_model actor_async_save_callback : Callback
  get_actor_server_id send_to_node check_readiness : Callback

-- When it can be called
abbrev pub is_enabled : Callback → App → Bool
is_enabled on_node_bytes a = a.serving
is_enabled on_node_events a = a.serving
is_enabled on_nodes_sync a = a.serving
is_enabled check_readiness a = a.http_server
is_enabled _ a = a.acting

-- Whether the fields whose methods it calls are set; the events of nodes look whether the router is.
abbrev pub is_safe : Callback → App → Bool
is_safe on_node_bytes a = a.actor_service && a.actor_codec
is_safe on_node_events a = true
is_safe on_nodes_sync a = true
is_safe save_model a = a.mongobd
is_safe actor_async_save_callback a = a.actor_service
is_safe get_actor_server_id a = a.actor_server_store
is_safe send_to_node a = a.cluster
is_safe check_readiness a = a.mongo_client && a.redis_client

-- A call to another node may only come when the start has ended.
abbrev pub waits_for_start : Callback → Bool
waits_for_start send_to_node = true
waits_for_start _ = false
