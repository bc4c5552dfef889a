-- ===== src/Agent/WriteLoop/Samples.antt =====
-- An agent with packets that wait, and the theorems at work on it.
use ggs.Prelude.{◌≡◌, refl, true, false, List, [], ◌∷◌, ◌==◌, if◌then◌else◌}
use ggs.Persist.{Bytes}
use ggs.Agent.{Agent, another_login, new_agent, stop}
use ggs.Agent.WriteLoop.{
  Hook, no_hook, undecodable, login_game_resp, disconnect_push, Out, Turn, receive, stop_seen,
  write_round, pending_packet_loop, handle_packet,
}
use ggs.Agent.WriteLoop.Ends.{stop_signal, stop_told}
use ggs.Agent.WriteLoop.Order.{in_order, pending_packet_loop-in_order}

-- A packet that begins with 9 is the response to the login.
abbrev sample_hook : Bytes → Hook
sample_hook [] = undecodable
sample_hook (x ∷ p) = if x == 9 then login_game_resp else no_hook

abbrev busy_agent : Agent
busy_agent = record new_agent {
  player_id = 5;
  session_id = 1;
  pending_packets = (1 ∷ []) ∷ (9 ∷ []) ∷ (2 ∷ []) ∷ (3 ∷ []) ∷ [];
}

abbrev busy_out : Out
busy_out = record {
  world = record {
    heap = λ i. if 0 == i then busy_agent else new_agent;
    agents = (5, 0) ∷ [];
    disconnected = [];
    refused = [];
  };
  sent = [];
  closed = false;
}

abbrev sample_turns : List Turn
sample_turns = receive true true ∷ receive true true ∷ stop_seen true ∷ receive true true ∷ []

turns_test : (pending_packet_loop sample_hook 0 sample_turns busy_out).0 ≡ true
unfolding pending_packet_loop write_round handle_packet
turns_test = refl

pending_packet_loop-in_order_example :
    in_order sample_hook 0 (pending_packet_loop sample_hook 0 sample_turns busy_out).1
    ≡ in_order sample_hook 0 busy_out
pending_packet_loop-in_order_example =
    pending_packet_loop-in_order sample_hook 0 sample_turns busy_out turns_test

stop_told_example :
    (write_round sample_hook 0
        (stop_seen true)
        (record busy_out { world = stop 0 another_login busy_out.world })
      ≡ (
        false,
        record busy_out {
          world = stop 0 another_login busy_out.world;
          sent = disconnect_push another_login ∷ [];
          closed = true;
        },
      ))
    × (write_round sample_hook 0
          (stop_seen true)
          (record busy_out { world = stop_signal sample_hook 0 busy_out.world })
        ≡ (
          false,
          record busy_out { world = stop_signal sample_hook 0 busy_out.world; closed = true },
        ))
stop_told_example = stop_told sample_hook 0 another_login busy_out refl refl refl
