-- ===== src/Agent/Samples.antt =====
-- A connected agent and one that logs in, and the theorems at work on them.
use ggs.Prelude.{◌≡◌, refl, true, false, some, List, [], ◌∷◌, arith, ◌==◌, if◌then◌else◌}
use ggs.Prelude.Map.{nat_eq, lookup}
use ggs.Agent.{
  unknown, Agent, World, new_agent, get_agent, TokenInfo, LoginRun, no_actor, handle_login_req,
}
use ggs.Agent.Register.{IsRegister}
use ggs.Agent.ReadLoop.{
  Inbound, read_loop, read_round, read_packet_round, forward, handle_login_game_resp, packet,
  login_resp, not_c2s,
}
use ggs.Agent.Login.{IsServed, handle_login_req-IsRegister, login_replaces}
use ggs.Agent.Deliver.{IsSound, push, handle, handle-IsSound}

abbrev player_agent : Agent
player_agent = record {
  player_id = 5;
  session_id = 1;
  pending_packets = (1 ∷ 2 ∷ []) ∷ [];
  stopped = false;
  stop_reason = unknown;
}

-- Agent 0 is player 5's; every other one is new.
abbrev sample_world : World
sample_world = record {
  heap = λ i. if 0 == i then player_agent else new_agent;
  agents = (5, 0) ∷ [];
  disconnected = [];
  refused = [];
}

sample_world-IsRegister : IsRegister sample_world
unfolding lookup
sample_world-IsRegister p i h = record {
  running = ground arith;
  own = ground arith;
  connected = ground arith;
}

abbrev sample_token : TokenInfo
sample_token = record { character_id = 5; server_id = 101 }

abbrev sample_run : LoginRun
sample_run = record {
  token = some sample_token;
  locked = true;
  place = no_actor;
  picked = (1 ∷ []) ∷ [];
  updated = true;
  session_id = 2;
  connected = true;
  forwarded = true;
}

sample_run-IsServed : IsServed sample_token sample_run
sample_run-IsServed = record {
  token = refl;
  locked = refl;
  placed_at = refl;
  connected = refl;
  forwarded = refl;
}

registered_test : get_agent 5 sample_world ≡ some 0
unfolding get_agent lookup
registered_test = refl

handle_login_req-IsRegister_example : IsRegister (handle_login_req 1 sample_run sample_world)
handle_login_req-IsRegister_example =
    handle_login_req-IsRegister 1 sample_run sample_world (λ t h. ground arith) (omega arith)
      sample_world-IsRegister (record { running = refl; no_player = refl })

login_replaces_example :
    let w' = handle_login_req 1 sample_run sample_world in
    (get_agent 5 w' ≡ some 1) × ((w'.heap 0).stopped ≡ true) × (w'.disconnected ≡ (5, 1) ∷ [])
login_replaces_example =
    login_replaces 1 0 sample_token sample_run sample_world sample_run-IsServed
      sample_world-IsRegister registered_test

sample_world-IsSound : IsSound 2 (λ p. true) sample_world
sample_world-IsSound = record { register = sample_world-IsRegister; bounded = λ i. ground arith }

handle-IsSound_example :
    IsSound 2 (λ p. true) (handle 2 (λ p. true) (push true 5 (1 ∷ 2 ∷ 3 ∷ [])) sample_world)
handle-IsSound_example =
    handle-IsSound 2 (λ p. true) (push true 5 (1 ∷ 2 ∷ 3 ∷ [])) sample_world sample_world-IsSound

abbrev sample_packets : List Inbound
sample_packets = packet true ∷ login_resp true ∷ not_c2s ∷ packet true ∷ []

read_loop_test : (read_loop 0 sample_packets sample_world).0 ≡ false
unfolding read_loop read_round read_packet_round forward handle_login_game_resp
read_loop_test = refl
