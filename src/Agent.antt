-- ===== src/Agent.antt =====
-- The agents of the connected players and their register (app/agent/internal/agent.go,
-- app/agent/internal/infra/agent/agent.go and hook_login.go, app/agent/internal/app/actor.go).
--
-- An agent is known by a number that stands for its pointer. A player's identifier is the 64-bit
-- pattern of it. What the services answer during a login is an argument.
pub mod Register
pub mod Login
pub mod Deliver
pub mod ReadLoop
pub mod StopAll
pub mod WriteLoop
pub mod Place
mod Samples
use ggs.Prelude.{
  ℕ, zero, suc, Bool, true, false, Option, none, some, List, [], ◌∷◌, ◌++◌, ltb, ◌==◌,
  if◌then◌else◌, length,
}
use ggs.Prelude.Map.{Map, nat_eq, lookup, insert, erase}
use ggs.Persist.{Bytes}

pub data Reason : Type 0 where
  unknown system_error another_login login_timeout : Reason

abbrev pub max_pending_packets : ℕ
max_pending_packets = 10

pub record Agent : Type 0 where
  pub player_id : ℕ
  pub session_id : ℕ
  pub pending_packets : List Bytes
  pub stopped : Bool
  pub stop_reason : Reason

-- The agents, the register of them by player, the sessions that the players were told to end, the
-- agents whose client was told that its token is invalid.
pub record World : Type 0 where
  pub heap : ℕ → Agent
  pub agents : Map ℕ ℕ
  pub disconnected : List (ℕ × ℕ)
  pub refused : List ℕ

abbrev pub set_agent : ℕ → Agent → World → World
set_agent i a w = record w { heap = λ j. if i == j then a else w.heap j }

-- `NewAgent`
abbrev pub new_agent : Agent
new_agent = record {
  player_id = 0;
  session_id = 0;
  pending_packets = [];
  stopped = false;
  stop_reason = unknown;
}

-- `isConnected`
abbrev pub is_connected : Agent → Bool
is_connected a = if a.player_id == 0 then false else (if a.session_id == 0 then false else true)

-- `AddAgent`, `DelAgent`, `GetAgent`
unfoldable pub add_agent : ℕ → World → World
add_agent i w = record w { agents = insert (w.heap i).player_id i w.agents }

unfoldable pub del_agent : ℕ → World → World
del_agent i w = record w { agents = erase (w.heap i).player_id w.agents }

unfoldable pub get_agent : ℕ → World → Option ℕ
get_agent player_id w = lookup player_id w.agents

-- `GetAgentBySessionId`
unfoldable pub get_agent_by_session_id : ℕ → ℕ → World → Option ℕ
get_agent_by_session_id player_id session_id w = elim (get_agent player_id w) [
  | none ↦ none
  | some i ↦ if (w.heap i).session_id == session_id then some i else none
]

unfoldable pub disconnect_player : ℕ → World → World
disconnect_player i w = record w {
  disconnected = ((w.heap i).player_id, (w.heap i).session_id) ∷ w.disconnected;
}

-- `stop`, as one step; the channel is closed before the reason is stored, and WriteLoop.Ends has what is
-- seen between the two.
unfoldable pub stop : ℕ → Reason → World → World
stop i reason w =
    let a = w.heap i in
    let w' = set_agent i (record a { stopped = true; stop_reason = reason }) w in
    if a.stopped then w else (if is_connected a then disconnect_player i (del_agent i w') else w')

-- `StopAllAgents`, which ranges over the register.
unfoldable pub stop_each : List (ℕ × ℕ) → World → World
stop_each [] w = w
stop_each ((player_id, i) ∷ rest) w = stop_each rest (stop i system_error w)

unfoldable pub stop_all_agents : World → World
stop_all_agents w = stop_each w.agents w

-- What a login token says.
pub record TokenInfo : Type 0 where
  pub character_id : ℕ
  pub server_id : ℕ

-- The token library with the agent's key and stage; the subject that a token lacks is empty.
pub record LoginTokens : Type 1 where
  pub Claims : Type 0
  pub parse : Bytes → Option Claims
  pub verify_issuer : Claims → Bool
  pub get_sub : Claims → Bytes
  pub unmarshal : Bytes → Option TokenInfo

-- `parseLoginToken`; `none` is `ECInvalidToken`.
unfoldable pub parse_login_token : LoginTokens → Bytes → Option TokenInfo
parse_login_token k token = elim (k.parse token) [
  | none ↦ none
  | some claims ↦ if k.verify_issuer claims then k.unmarshal (k.get_sub claims) else none
]

-- What the store of actors' locations answers: an error, no actor, or a location and whether
-- `checkLocation` accepts it.
pub data Location : Type 0 where
  location_error no_actor : Location
  location : Bool → Location

-- What the services answer while a login is handled.
pub record LoginRun : Type 0 where
  pub token : Option TokenInfo
  pub locked : Bool
  pub place : Location
  pub picked : List Bytes
  pub updated : Bool
  pub session_id : ℕ
  pub connected : Bool
  pub forwarded : Bool

-- Whether the player has a node after its location was looked up and, where needed, chosen.
abbrev pub placed : LoginRun → Bool
placed r = elim r.place [
  | location_error ↦ false
  | location true ↦ true
  | _ ↦ elim r.picked [ [] ↦ false | id ∷ ids ↦ r.updated ]
]

-- The agent that the player has is removed and stopped.
unfoldable pub stop_another : ℕ → World → World
stop_another player_id w = elim (get_agent player_id w) [
  | none ↦ w
  | some j ↦ stop j another_login (del_agent j w)
]

-- The agent takes its player and session, and is registered.
unfoldable pub join : ℕ → ℕ → ℕ → World → World
join i player_id session_id w =
    add_agent i
      (set_agent i (record (w.heap i) { player_id = player_id; session_id = session_id }) w)

-- The end of `handleLoginReq`, once the player is connected.
unfoldable pub enter : ℕ → ℕ → LoginRun → World → World
enter i player_id r w =
    let w' = join i player_id r.session_id w in
    if r.forwarded then w' else stop i system_error (del_agent i w')

-- `handleLoginReq`
unfoldable pub handle_login_req : ℕ → LoginRun → World → World
handle_login_req i r w = elim r.token [
  | none ↦ stop i unknown (record w { refused = i ∷ w.refused })
  | some t ↦
      if r.locked
      then (let w' = stop_another t.character_id w in
          if placed r
          then (if r.connected then enter i t.character_id r w' else stop i system_error w')
          else stop i system_error w')
      else stop i login_timeout w
]

-- `handleLoginReq` with the token as the request holds it.
abbrev pub handle_login_token : LoginTokens → ℕ → Bytes → LoginRun → World → World
handle_login_token k i token r w =
    handle_login_req i (record r { token = parse_login_token k token }) w

pub data Received : Type 0 where
  queued blocked : Received
  packet_len packet_pt err_stopped : Received

-- `ReceivePacket` of agent `i`. Where the queue has room and the agent has stopped, the `select`
-- takes either case: `choice` says which. The codec's head length and check are parameters.
module _ (head_len : ℕ) (check_pt_s2c : Bytes → Bool) where
  unfoldable pub receive_packet : Bool → Bytes → ℕ → World → Received × World
  receive_packet choice p i w =
      let a = w.heap i in
      let w' = set_agent i (record a { pending_packets = a.pending_packets ++ (p ∷ []) }) w in
      if ltb (length p) head_len
      then (packet_len, w)
      else (if check_pt_s2c p
          then (if ltb (length a.pending_packets) max_pending_packets
              then (if a.stopped
                  then (if choice then (queued, w') else (err_stopped, w))
                  else (queued, w'))
              else (if a.stopped then (err_stopped, w) else (blocked, w)))
          else (packet_pt, w))

  -- `HandlePush` and the end of `HandleResponse`: a packet that is not taken stops the agent.
  abbrev pub after_receive : ℕ → Received × World → World
  after_receive i (queued, w) = w
  after_receive i (blocked, w) = w
  after_receive i (packet_len, w) = stop i system_error w
  after_receive i (packet_pt, w) = stop i system_error w
  after_receive i (err_stopped, w) = stop i system_error w

  unfoldable pub deliver : Bool → Bytes → ℕ → World → World
  deliver choice p i w = after_receive i (receive_packet choice p i w)

  unfoldable pub handle_push : Bool → ℕ → Bytes → World → World
  handle_push choice player_id p w = elim (get_agent player_id w) [
    | none ↦ w
    | some i ↦ deliver choice p i w
  ]

  -- `HandleResponse`; `ok` says whether the error code is `ErrCodeOK`.
  unfoldable pub handle_response : Bool → Bool → ℕ → Bytes → World → World
  handle_response choice ok player_id p w = elim (get_agent player_id w) [
    | none ↦ w
    | some i ↦ if ok then deliver choice p i w else stop i system_error w
  ]

-- `HandleDisconnect`, which does not look at the session.
unfoldable pub handle_disconnect : ℕ → ℕ → World → World
handle_disconnect player_id session_id w = elim (get_agent player_id w) [
  | none ↦ w
  | some i ↦ stop i system_error w
]
