-- ===== src/App/Web.antt =====
-- The start and the stop of the login service and of the platform (app/login/internal/app,
-- app/platform/internal/app).
use ggs.Prelude.{◌≡◌, refl, Bool, true, false, ◌&&◌, none, List, [], ◌∷◌, arith}
use ggs.App.{
  Failure, load_config, init_redis, init_mongo, ensure_mongo_indexes, start_actor, no_routes, Run,
  started, assign, attempt, All, Goes, assign-Goes, attempt-Goes, Service, http_server, mongo,
  redis, IsOrdered, closed_if,
}

-- Which calls of libraries work, and whether the routes were registered.
pub record Outcomes : Type 0 where
  pub config_loads : Bool
  pub redis_connects : Bool
  pub mongo_connects : Bool
  pub indexes_are_made : Bool
  pub registry_opens : Bool
  pub store_opens : Bool
  pub has_routes : Bool

-- Which variables of the package are set; requests are served from when `srv` is.
pub record App : Type 0 where
  pub cfg : Bool
  pub redis_client : Bool
  pub mongo_client : Bool
  pub repo : Bool
  pub actor_registry : Bool
  pub actor_server_store : Bool
  pub srv : Bool

abbrev pub new_app : App
new_app = record {
  cfg = false;
  redis_client = false;
  mongo_client = false;
  repo = false;
  actor_registry = false;
  actor_server_store = false;
  srv = false;
}

module _ (o : Outcomes) where
  -- `startHttp` of both
  abbrev pub start_http : App → Run App
  start_http = attempt o.has_routes no_routes (λ a. record a { srv = true }) started

  -- `Start` of the login service, with its `startActor`
  unfoldable pub login_start : App → Run App
  login_start =
      attempt o.config_loads load_config (λ a. record a { cfg = true })
        (attempt o.redis_connects init_redis (λ a. record a { redis_client = true })
          (attempt o.mongo_connects init_mongo (λ a. record a { mongo_client = true })
            (assign (λ a. record a { repo = true })
              (attempt o.registry_opens start_actor (λ a. record a { actor_registry = true })
                (attempt o.store_opens start_actor (λ a. record a { actor_server_store = true })
                  start_http)))))

  -- `Start` of the platform, with its `startActor`
  unfoldable pub platform_start : App → Run App
  platform_start =
      attempt o.config_loads load_config (λ a. record a { cfg = true })
        (attempt o.redis_connects init_redis (λ a. record a { redis_client = true })
          (attempt o.mongo_connects init_mongo (λ a. record a { mongo_client = true })
            (attempt o.indexes_are_made ensure_mongo_indexes (λ a. a)
              (assign (λ a. record a { repo = true })
                (attempt o.registry_opens start_actor (λ a. record a { actor_registry = true })
                  start_http)))))

-- `Stop`: what it closes, in this order
unfoldable pub login_stop : App → List Service
login_stop a =
    closed_if a.srv http_server (closed_if a.mongo_client mongo (closed_if a.redis_client redis []))

unfoldable pub platform_stop : App → List Service
platform_stop a =
    closed_if a.srv http_server (closed_if a.mongo_client mongo (closed_if a.redis_client redis []))

-- What the handlers of the login service, and of the platform, use
abbrev pub login_ready : App → Bool
login_ready a = a.cfg && a.redis_client && a.mongo_client && a.repo && a.actor_server_store

abbrev pub platform_ready : App → Bool
platform_ready a = a.cfg && a.mongo_client && a.repo && a.actor_registry

abbrev pub IsServing : (App → Bool) → App → Type 0
IsServing ready a = a.srv ≡ true → ready a ≡ true

abbrev pub IsUp : (App → Bool) → (App → List Service) → App → Type 0
IsUp ready stop a =
    (a.srv ≡ true)
    × (ready a ≡ true)
    × (stop a ≡ http_server ∷ mongo ∷ redis ∷ [])
    × IsOrdered (stop a)

module _ (ready : App → Bool) (stop : App → List Service) where
  waits :
      (works : Bool) (f : Failure) (set : App → App) (next : App → Run App) (a : App)
      → (set a).srv ≡ false
      → Goes (IsServing ready) (IsUp ready stop) (next (set a))
      → Goes (IsServing ready) (IsUp ready stop) (attempt works f set next a)
  waits works f set next a e =
      attempt-Goes (IsServing ready) (IsUp ready stop) works f set next a
        (λ h. absurd (ground arith))

  sets :
      (set : App → App) (next : App → Run App) (a : App)
      → (set a).srv ≡ false
      → Goes (IsServing ready) (IsUp ready stop) (next (set a))
      → Goes (IsServing ready) (IsUp ready stop) (assign set next a)
  sets set next a e =
      assign-Goes (IsServing ready) (IsUp ready stop) set next a (λ h. absurd (ground arith))

module _ (o : Outcomes) where
  login_goes : Goes (IsServing login_ready) (IsUp login_ready login_stop) (login_start o new_app)
  unfolding login_start login_stop
  login_goes = waits login_ready login_stop o.config_loads _ _ _ _ refl (
      waits login_ready login_stop o.redis_connects _ _ _ _ refl (
        waits login_ready login_stop o.mongo_connects _ _ _ _ refl (
          sets login_ready login_stop _ _ _ refl (
            waits login_ready login_stop o.registry_opens _ _ _ _ refl (
              waits login_ready login_stop o.store_opens _ _ _ _ refl (
                attempt-Goes (IsServing login_ready) (IsUp login_ready login_stop) o.has_routes _ _
                  _ _ (λ h. refl) (tt, λ h. (refl, refl, refl, ground arith))))))))

  platform_goes :
      Goes (IsServing platform_ready) (IsUp platform_ready platform_stop) (platform_start o new_app)
  unfolding platform_start platform_stop
  platform_goes = waits platform_ready platform_stop o.config_loads _ _ _ _ refl (
      waits platform_ready platform_stop o.redis_connects _ _ _ _ refl (
        waits platform_ready platform_stop o.mongo_connects _ _ _ _ refl (
          waits platform_ready platform_stop o.indexes_are_made _ _ _ _ refl (
            sets platform_ready platform_stop _ _ _ refl (
              waits platform_ready platform_stop o.registry_opens _ _ _ _ refl (
                attempt-Goes (IsServing platform_ready) (IsUp platform_ready platform_stop)
                  o.has_routes _ _ _ _ (λ h. refl) (tt, λ h. (refl, refl, refl, ground arith))))))))

  -- Whatever fails, the login service and the platform serve no request before all that their handlers
  -- use is set. A start that does not end the process serves, and then `Stop` closes the server, which
  -- uses both databases, before them.
  pub start-IsServing :
      (All (IsServing login_ready) (login_start o new_app).passed
        × ((login_start o new_app).failure ≡ none
            → IsUp login_ready login_stop (login_start o new_app).last))
      × (All (IsServing platform_ready) (platform_start o new_app).passed
          × ((platform_start o new_app).failure ≡ none
              → IsUp platform_ready platform_stop (platform_start o new_app).last))
  start-IsServing = (login_goes, platform_goes)
