-- ===== src/App/Samples.antt =====
-- Configurations with which all calls work, and the theorems at work on them.
use ggs.Prelude.{◌≡◌, true, false, none}
use ggs.App.{All}
use ggs.App.Agent
use ggs.App.Agent.Safe as AgentSafe
use ggs.App.Game
use ggs.App.Game.Safe as GameSafe
use ggs.App.Web
use ggs.App.Web.{start-IsServing}

abbrev agent_outcomes : Agent.Outcomes
agent_outcomes = record {
  config_loads = true;
  redis_connects = true;
  decryptor_loads = true;
  registry_opens = true;
  cluster_is_made = true;
  cluster_starts = true;
  listens = true;
  cluster_port = 7000;
  port = 8000;
  http_port = 0;
  enable_pprof = false;
}

abbrev game_outcomes : Game.Outcomes
game_outcomes = record {
  config_loads = true;
  redis_connects = true;
  mongo_connects = true;
  mongobd_starts = true;
  gdconf_loads = true;
  registry_opens = true;
  store_opens = true;
  router_is_made = true;
  service_is_made = true;
  codec_is_made = true;
  service_starts = true;
  server_actor_starts = true;
  cluster_port = 7000;
  cluster_is_made = true;
  cluster_starts = true;
  http_port = 9000;
}

abbrev web_outcomes : Web.Outcomes
web_outcomes = record {
  config_loads = true;
  redis_connects = true;
  mongo_connects = true;
  indexes_are_made = true;
  registry_opens = true;
  store_opens = true;
  has_routes = true;
}

start-IsServing_example :
    (All (Web.IsServing Web.login_ready) (Web.login_start web_outcomes Web.new_app).passed
      × ((Web.login_start web_outcomes Web.new_app).failure ≡ none
          → Web.IsUp Web.login_ready Web.login_stop
              (Web.login_start web_outcomes Web.new_app).last))
    × (All (Web.IsServing Web.platform_ready) (Web.platform_start web_outcomes Web.new_app).passed
        × ((Web.platform_start web_outcomes Web.new_app).failure ≡ none
            → Web.IsUp Web.platform_ready Web.platform_stop
                (Web.platform_start web_outcomes Web.new_app).last))
start-IsServing_example = start-IsServing web_outcomes
