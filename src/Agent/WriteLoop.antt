-- ===== src/Agent/WriteLoop.antt =====
-- The loop that sends a client what its player's actor sent (`pendingPacketLoop` and
-- `pendingPacketLoopStop` of app/agent/internal/infra/agent/agent.go).
--
-- Which message a packet holds is the codec's and a parameter.
pub mod Ends
pub mod Order
mod Samples
use ggs.Prelude.{ℕ, Bool, true, false, List, [], ◌∷◌, ◌++◌, if◌then◌else◌}
use ggs.Persist.{Bytes}
use ggs.Agent.{
  Agent, Reason, unknown, system_error, another_login, login_timeout, World, set_agent,
  is_connected, del_agent, disconnect_player, stop,
}

-- What `handleHookMsg` makes of a packet: no hook, one that does not decode, or the response to the
-- login at the game.
pub data Hook : Type 0 where
  no_hook undecodable login_game_resp : Hook

-- What goes out to the client.
pub data Sent : Type 0 where
  forwarded : Bytes → Sent
  login_resp : Sent
  disconnect_push : Reason → Sent

pub record Out : Type 0 where
  pub world : World
  pub sent : List Sent
  pub closed : Bool

abbrev pub notified : Reason → Bool
notified unknown = false
notified _ = true

-- `sendMessage`: whether the packet went out.
abbrev pub send_message : Bool → Sent → Out → Out
send_message written x o = if written then record o { sent = o.sent ++ (x ∷ []) } else o

-- One case of the `select`: a packet that waits, or the signal to stop. `written` and `pushed` say
-- whether the connection takes what is written.
pub data Turn : Type 0 where
  receive : Bool → Bool → Turn
  stop_seen : Bool → Turn

module _ (hook_of : Bytes → Hook) (i : ℕ) where
  -- `pushDisconnect` of the reason, and the connection closed.
  abbrev pub push_and_close : Bool → Bool → Out → Out
  push_and_close notify_disconnect pushed o =
      let reason = (o.world.heap i).stop_reason in
      let told = send_message pushed (disconnect_push reason) o in
      let q = if notify_disconnect then (if notified reason then told else o) else o in
      record q { closed = true }

  -- `pendingPacketLoopStop`
  unfoldable pub pending_packet_loop_stop : Bool → Reason → Bool → Bool → Out → Out
  pending_packet_loop_stop active reason notify_disconnect pushed o =
      push_and_close notify_disconnect pushed
        (if active then record o { world = stop i reason o.world } else o)

  -- `handleLoginGameResp`
  abbrev pub answer_login : Bool → Out → Out
  answer_login written o =
      if written
      then send_message true login_resp o
      else record o { world = stop i system_error o.world }

  unfoldable pub handle_packet : Bool → Bool → Bytes → Hook → Out → Bool × Out
  handle_packet written pushed p undecodable o =
      (false, pending_packet_loop_stop true system_error true pushed o)
  handle_packet written pushed p login_game_resp o = (true, answer_login written o)
  handle_packet written pushed p no_hook o =
      if written
      then (true, send_message true (forwarded p) o)
      else (false, pending_packet_loop_stop true system_error false pushed o)

  abbrev pub with_pending : List Bytes → Out → Out
  with_pending ps o = record o {
    world = set_agent i (record (o.world.heap i) { pending_packets = ps }) o.world;
  }

  abbrev pub receive_first : Bool → Bool → List Bytes → Out → Bool × Out
  receive_first written pushed [] o = (true, o)
  receive_first written pushed (p ∷ ps) o =
      handle_packet written pushed p (hook_of p) (with_pending ps o)

  -- A case that is not ready is not taken.
  unfoldable pub write_round : Turn → Out → Bool × Out
  write_round (receive written pushed) o =
      receive_first written pushed (o.world.heap i).pending_packets o
  write_round (stop_seen pushed) o =
      if (o.world.heap i).stopped
      then (false, pending_packet_loop_stop false unknown true pushed o)
      else (true, o)

  -- `pendingPacketLoop`; the flag says whether it still runs.
  unfoldable pub pending_packet_loop : List Turn → Out → Bool × Out
  pending_packet_loop [] o = (true, o)
  pending_packet_loop (t ∷ ts) o =
      let (runs, o') = write_round t o in
      let rest = pending_packet_loop ts o' in if runs then rest else (false, o')
