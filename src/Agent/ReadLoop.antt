-- ===== src/Agent/ReadLoop.antt =====
-- The loop that reads a client's packets (`readLoop` of app/agent/internal/infra/agent/agent.go).
use ggs.Prelude.{ℕ, ◌≡◌, Bool, true, false, List, [], ◌∷◌, if◌then◌else◌, if_elim, arith}
use ggs.Agent.{World, system_error, is_connected, stop, LoginRun, handle_login_req}
use ggs.Agent.Register.{stop_self}

-- What one round of the loop meets: no packet, a packet that is no request, one with a hook that does
-- not decode, a login, a login response and whether the client could be told, or a packet to forward
-- and whether the player took it.
pub data Inbound : Type 0 where
  read_failed not_c2s undecodable : Inbound
  login_req : LoginRun → Inbound
  login_resp packet : Bool → Inbound

-- `handleLoginGameResp`
unfoldable pub handle_login_game_resp : ℕ → Bool → World → World
handle_login_game_resp i sent w = if sent then w else stop i system_error w

-- The end of a round with a packet to forward.
unfoldable pub forward : ℕ → Bool → World → Bool × World
forward i taken w =
    if is_connected (w.heap i)
    then (if taken then (true, w) else (false, stop i system_error w))
    else (false, stop i system_error w)

-- A round in which the agent has not stopped: whether the loop goes on, with `handleHookMsg`.
unfoldable pub read_packet_round : ℕ → Inbound → World → Bool × World
read_packet_round i read_failed w = (false, stop i system_error w)
read_packet_round i not_c2s w = (false, stop i system_error w)
read_packet_round i undecodable w = (false, stop i system_error w)
read_packet_round i (login_req run) w = (true, handle_login_req i run w)
read_packet_round i (login_resp sent) w = (true, handle_login_game_resp i sent w)
read_packet_round i (packet taken) w = forward i taken w

unfoldable pub read_round : ℕ → Inbound → World → Bool × World
read_round i x w = if (w.heap i).stopped then (false, w) else read_packet_round i x w

-- `readLoop` over what it meets; the flag says whether it still runs.
unfoldable pub read_loop : ℕ → List Inbound → World → Bool × World
read_loop i [] w = (true, w)
read_loop i (x ∷ xs) w =
    let rest = read_loop i xs (read_round i x w).1 in
    if (read_round i x w).0 then rest else (false, (read_round i x w).1)

-- The agent has stopped, or the loop runs.
abbrev Ended : ℕ → Bool × World → Type 0
Ended i (go_on, w) = go_on ≡ false → (w.heap i).stopped ≡ true

read_packet_round-Ended : (i : ℕ) (x : Inbound) (w : World) → Ended i (read_packet_round i x w)
unfolding read_packet_round forward
read_packet_round-Ended i read_failed w = λ _. stop_self i system_error w
read_packet_round-Ended i not_c2s w = λ _. stop_self i system_error w
read_packet_round-Ended i undecodable w = λ _. stop_self i system_error w
read_packet_round-Ended i (login_req run) w = λ h. absurd (ground arith)
read_packet_round-Ended i (login_resp sent) w = λ h. absurd (ground arith)
read_packet_round-Ended i (packet taken) w =
    if_elim (Ended i) (is_connected (w.heap i))
      (λ _.
        if_elim (Ended i) taken (λ _ h. absurd (ground arith)) (λ _ _. stop_self i system_error w))
      (λ _ _. stop_self i system_error w)

read_round-Ended : (i : ℕ) (x : Inbound) (w : World) → Ended i (read_round i x w)
unfolding read_round
read_round-Ended i x w =
    if_elim (Ended i) (w.heap i).stopped (λ e _. e) (λ _. read_packet_round-Ended i x w)

read_loop-Ended : (i : ℕ) (xs : List Inbound) (w : World) → Ended i (read_loop i xs w)
unfolding read_loop
read_loop-Ended i [] w = λ h. absurd (ground arith)
read_loop-Ended i (x ∷ xs) w =
    if_elim (Ended i) (read_round i x w).0 (λ _. read_loop-Ended i xs (read_round i x w).1)
      (λ e _. read_round-Ended i x w e)

-- When the loop has ended, the agent has stopped: no running agent is left whose packets nobody reads.
read_loop_stopped :
    (i : ℕ) (xs : List Inbound) (w : World)
    → (read_loop i xs w).0 ≡ false
    → ((read_loop i xs w).1.heap i).stopped ≡ true
read_loop_stopped i xs w h = read_loop-Ended i xs w h
