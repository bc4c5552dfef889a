-- ===== src/Game/Heartbeat/Samples.antt =====
-- A player that logs in and sends heartbeats, and the theorems at work on it.
use ggs.Prelude.{ℕ, suc, refl, true, false, [], ◌∷◌, arith}
use ggs.Actor.{Timers, IsTimers}
use ggs.Game.Heartbeat.{
  Player, set_login, heartbeat, fire, start_heartbeat_timer, IsWatched, IsIdle, beats, fires,
  logs_in, quiet, done, then_step, Steps-IsWatched,
}

abbrev clock : Timers
clock = record { T = ℕ; timer_id_none = 0; start_timer = λ delay t. (suc t, suc t) }

clock-IsTimers : IsTimers clock
clock-IsTimers = record { started = λ delay t. omega arith }

abbrev new_player : Player clock
new_player = record {
  is_login = false;
  heartbeat_timer_id = 0;
  last_heartbeat_time = 0;
  timers = 4;
  pending = [];
  disconnects = 0;
}

Steps-IsWatched_example :
    let q = fire clock 46_000_000_000 5 (heartbeat clock 9 (set_login clock new_player)) in
    IsWatched clock q × IsIdle clock q
unfolding set_login start_heartbeat_timer
Steps-IsWatched_example = Steps-IsWatched clock clock-IsTimers {p = new_player} refl (
    then_step (then_step (then_step done logs_in) (quiet (beats 9)))
      (quiet (fires 46_000_000_000 5 refl)))

abbrev logged_in : Player clock
logged_in = record {
  is_login = true;
  heartbeat_timer_id = 5;
  last_heartbeat_time = 9;
  timers = 5;
  pending = 5 ∷ [];
  disconnects = 0;
}
