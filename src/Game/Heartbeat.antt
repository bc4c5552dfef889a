-- ===== src/Game/Heartbeat.antt =====
-- The login of a player's actor and the timer that watches its heartbeats
-- (internal/infra/actor/actors/player.go).
--
-- The timer service is a parameter: a timer that is not periodic fires once, and not after it was
-- stopped. Times are nanoseconds, and below the overflow of an int64.
mod Samples
use ggs.Prelude.{
  ℕ, ◌+◌, ◌≡◌, ◌≢◌, ◌⊎◌, refl, sym, ap, ◌∙◌, inl, inr, Bool, true, false, List, [], ◌∷◌, ◌==◌, leb,
  ==_iff, ==_refl, if◌then◌else◌, if_elim, Bool-cases, arith,
}
use mathlib.Core.Path.{subst}
use ggs.Actor.{Timers, IsTimers, fired}

abbrev pub heartbeat_timeout : ℕ
heartbeat_timeout = 45_000_000_000

module _ (s : Timers) where
  open s use {T, timer_id_none, start_timer}

  -- `Player`, with the timers of it that have yet to fire, and how often it was disconnected.
  pub record Player : Type 0 where
    pub is_login : Bool
    pub heartbeat_timer_id : ℕ
    pub last_heartbeat_time : ℕ
    pub timers : T
    pub pending : List ℕ
    pub disconnects : ℕ

  -- `StopTimer`
  abbrev pub stop_timer : ℕ → Player → Player
  stop_timer tid p = record p { pending = fired tid p.pending }

  abbrev pub started : ℕ × T → Player → Player
  started (tid, t) p = record p { heartbeat_timer_id = tid; timers = t; pending = tid ∷ p.pending }

  -- `startHeartbeatTimer`
  unfoldable pub start_heartbeat_timer : Player → Player
  start_heartbeat_timer p =
      started (start_timer heartbeat_timeout p.timers)
        (if p.heartbeat_timer_id == timer_id_none then p else stop_timer p.heartbeat_timer_id p)

  -- `stopHeartbeatTimer`
  unfoldable pub stop_heartbeat_timer : Player → Player
  stop_heartbeat_timer p =
      if p.heartbeat_timer_id == timer_id_none
      then p
      else record (stop_timer p.heartbeat_timer_id p) { heartbeat_timer_id = timer_id_none }

  -- `SetLogin`
  unfoldable pub set_login : Player → Player
  set_login p = start_heartbeat_timer (record p { is_login = true })

  -- `SetLogout`
  unfoldable pub set_logout : Player → Player
  set_logout p =
      let q = stop_heartbeat_timer (record p { is_login = false }) in
      record q { disconnects = q.disconnects + 1 }

  -- `Heartbeat`
  abbrev pub heartbeat : ℕ → Player → Player
  heartbeat now p = record p { last_heartbeat_time = now }

  -- `onHeartbeatTimer` of the timer `tid`
  unfoldable pub on_heartbeat_timer : ℕ → ℕ → Player → Player
  on_heartbeat_timer now tid p =
      if tid == p.heartbeat_timer_id
      then (if leb (p.last_heartbeat_time + heartbeat_timeout) now then set_logout p else p)
      else p

  -- A pending timer fires.
  abbrev pub fire : ℕ → ℕ → Player → Player
  fire now tid p = on_heartbeat_timer now tid (record p { pending = fired tid p.pending })

  -- No timer is pending but the one that the player knows.
  abbrev pub IsWatched : Player → Type 0
  IsWatched p =
      (p.pending ≡ [])
      ⊎ ((p.pending ≡ p.heartbeat_timer_id ∷ []) × (p.heartbeat_timer_id ≢ timer_id_none))

  abbrev pub IsFirst : ℕ → List ℕ → Type 0
  IsFirst tid [] = ⊥
  IsFirst tid (x ∷ xs) = tid ≡ x

  -- What happens to a player between logins: a heartbeat, or a timer that is pending fires.
  pub data Quiet : Player → Player → Type 0 where
    beats : {p : Player} (now : ℕ) → Quiet p (heartbeat now p)
    fires : {p : Player} (now tid : ℕ) → IsFirst tid p.pending → Quiet p (fire now tid p)

  pub data Step : Player → Player → Type 0 where
    logs_in : {p : Player} → Step p (set_login p)
    quiet : {p q : Player} → Quiet p q → Step p q

  pub data Steps : Player → Player → Type 0 where
    done : {p : Player} → Steps p p
    then_step : {p q r : Player} → Steps p q → Step q r → Steps p r

  pub data QuietSteps : Player → Player → Type 0 where
    done_quiet : {p : Player} → QuietSteps p p
    then_quiet : {p q r : Player} → QuietSteps p q → Quiet q r → QuietSteps p r

  fired_self : (tid : ℕ) → fired tid (tid ∷ []) ≡ []
  unfolding fired
  fired_self tid = rw (==_refl tid) refl

  stopped_first :
      (p : Player)
      → IsWatched p
      → (if p.heartbeat_timer_id == timer_id_none
          then p
          else stop_timer p.heartbeat_timer_id p).pending
        ≡ []
  unfolding fired
  stopped_first p (inl e) =
      if_elim (λ (q : Player). q.pending ≡ []) (p.heartbeat_timer_id == timer_id_none) (λ _. e)
        (λ _. ap (fired p.heartbeat_timer_id) e)
  stopped_first p (inr (e, k)) =
      if_elim (λ (q : Player). q.pending ≡ []) (p.heartbeat_timer_id == timer_id_none)
        (λ b. absurd (k ((==_iff p.heartbeat_timer_id timer_id_none).0 b)))
        (λ _. ap (fired p.heartbeat_timer_id) e ∙ fired_self p.heartbeat_timer_id)

  set_login-IsWatched : (law : IsTimers s) (p : Player) → IsWatched p → IsWatched (set_login p)
  unfolding set_login start_heartbeat_timer
  set_login-IsWatched law p w = inr (
    ap (λ l. (start_timer heartbeat_timeout p.timers).0 ∷ l)
        (stopped_first (record p { is_login = true }) w),
    law.started heartbeat_timeout p.timers,
  )

  stop_heartbeat_timer_empty : (p : Player) → p.pending ≡ [] → (stop_heartbeat_timer p).pending ≡ []
  unfolding stop_heartbeat_timer fired
  stop_heartbeat_timer_empty p h =
      if_elim (λ (q : Player). q.pending ≡ []) (p.heartbeat_timer_id == timer_id_none) (λ _. h)
        (λ _. ap (fired p.heartbeat_timer_id) h)

  on_heartbeat_timer_empty :
      (now tid : ℕ) (p : Player) → p.pending ≡ [] → (on_heartbeat_timer now tid p).pending ≡ []
  unfolding on_heartbeat_timer set_logout
  on_heartbeat_timer_empty now tid p h =
      if_elim (λ (q : Player). q.pending ≡ []) (tid == p.heartbeat_timer_id)
        (λ _.
          if_elim (λ (q : Player). q.pending ≡ [])
            (leb (p.last_heartbeat_time + heartbeat_timeout) now)
            (λ _. stop_heartbeat_timer_empty (record p { is_login = false }) h) (λ _. h))
        (λ _. h)

  fired_first :
      (tid : ℕ) (p : Player) → IsWatched p → IsFirst tid p.pending → fired tid p.pending ≡ []
  unfolding fired
  fired_first tid p (inl e) f = ap (fired tid) e
  fired_first tid p (inr (e, k)) f =
      let same : tid ≡ p.heartbeat_timer_id = subst (IsFirst tid) e f in
      ap (fired tid) (e ∙ ap (λ x. x ∷ []) (sym same)) ∙ fired_self tid

  fire_empty :
      (now tid : ℕ) (p : Player)
      → IsWatched p
      → IsFirst tid p.pending
      → (fire now tid p).pending ≡ []
  fire_empty now tid p w f =
      on_heartbeat_timer_empty now tid (record p { pending = fired tid p.pending })
        (fired_first tid p w f)

  -- A player that is not logged in has no timer.
  abbrev pub IsIdle : Player → Type 0
  IsIdle p = p.is_login ≡ false → p.pending ≡ []

  set_login_logged : (p : Player) → (set_login p).is_login ≡ true
  unfolding set_login start_heartbeat_timer
  set_login_logged p =
      if_elim (λ (q : Player). q.is_login ≡ true) (p.heartbeat_timer_id == timer_id_none)
        (λ _. refl) (λ _. refl)

  Quiet-IsWatched : {p q : Player} → Quiet p q → IsWatched p → IsIdle p → IsWatched q × IsIdle q
  Quiet-IsWatched (beats now) w i = (w, i)
  Quiet-IsWatched {p = p} (fires now tid f) w i =
      (inl (fire_empty now tid p w f), λ _. fire_empty now tid p w f)

  Step-IsWatched :
      IsTimers s → {p q : Player} → Step p q → IsWatched p → IsIdle p → IsWatched q × IsIdle q
  Step-IsWatched law {p = p} logs_in w i =
      (set_login-IsWatched law p w, λ e. absurd (grind (arith, e, set_login_logged p)))
  Step-IsWatched law (quiet x) w i = Quiet-IsWatched x w i

  -- From a new player on, whatever happens, no timer is pending but the one that the player knows,
  -- and none when it is not logged in.
  pub Steps-IsWatched :
      IsTimers s → {p q : Player} → p.pending ≡ [] → Steps p q → IsWatched q × IsIdle q
  Steps-IsWatched law h done = (inl h, λ _. h)
  Steps-IsWatched law h (then_step xs x) =
      let (w, i) = Steps-IsWatched law h xs in Step-IsWatched law x w i

  QuietSteps-unwatched :
      {p q : Player}
      → QuietSteps p q
      → p.pending ≡ []
      → (q.pending ≡ []) × (q.is_login ≡ p.is_login)
  QuietSteps-unwatched done_quiet h = (h, refl)
  QuietSteps-unwatched (then_quiet xs (beats now)) h = QuietSteps-unwatched xs h
  QuietSteps-unwatched (then_quiet xs (fires now tid f)) h =
      absurd (subst (IsFirst tid) (QuietSteps-unwatched xs h).0 f)

  stays_recent :
      (now : ℕ) (p : Player)
      → p.is_login ≡ true
      → leb (p.last_heartbeat_time + heartbeat_timeout) now ≡ false
      → (fire now p.heartbeat_timer_id p).is_login ≡ true
  unfolding on_heartbeat_timer
  stays_recent now p l r =
      let popped = record p { pending = fired p.heartbeat_timer_id p.pending } in
      if_elim (λ (q : Player). q.is_login ≡ true) (p.heartbeat_timer_id == p.heartbeat_timer_id)
        (λ _.
          if_elim (λ (q : Player). q.is_login ≡ true)
            (leb (p.last_heartbeat_time + heartbeat_timeout) now)
            (λ e. absurd (grind (arith, e, r))) (λ _. l))
        (λ _. l)

  -- When the timer of a player who is logged in fires less than the timeout after a heartbeat, the
  -- player stays logged in until the next login, whatever heartbeats fail to come.
  fire_once :
      (now : ℕ) (p : Player) {q : Player}
      → p.pending ≡ p.heartbeat_timer_id ∷ []
      → p.is_login ≡ true
      → leb (p.last_heartbeat_time + heartbeat_timeout) now ≡ false
      → QuietSteps (fire now p.heartbeat_timer_id p) q
      → q.is_login ≡ true
  fire_once now p h l r xs =
      let empty =
        on_heartbeat_timer_empty now p.heartbeat_timer_id
          (record p { pending = fired p.heartbeat_timer_id p.pending })
          (ap (fired p.heartbeat_timer_id) h ∙ fired_self p.heartbeat_timer_id) in
      (QuietSteps-unwatched xs empty).1 ∙ stays_recent now p l r
