-- ===== src/Agent/StopAll.antt =====
-- What `StopAllAgents` leaves (app/agent/internal/agent.go).
use ggs.Prelude.{
  ℕ, ◌≡◌, sym, ap, ◌∙◌, true, false, Option, none, some, List, [], ◌∷◌, ◌==◌, ==_iff, if◌then◌else◌,
  Bool-cases, inl, inr, arith,
}
use mathlib.Core.Path.{subst}
use ggs.Prelude.Map.{nat_eq, lookup}
use ggs.Agent.{
  World, system_error, get_agent, get_agent_by_session_id, stop, stop_each, stop_all_agents,
}
use ggs.Agent.Register.{IsRegister, stop_self, stop_heap, stop-IsRegister}

-- A stopped agent stays stopped.
stays_stopped :
    (i j : ℕ) (w : World)
    → (w.heap j).stopped ≡ true
    → ((stop i system_error w).heap j).stopped ≡ true
stays_stopped i j w h = elim (Bool-cases (i == j)) [
  | inl e ↦
      subst (λ x. ((stop i system_error w).heap x).stopped ≡ true) ((==_iff i j).0 e)
        (stop_self i system_error w)
  | inr e ↦ ap (λ a. a.stopped) (stop_heap i system_error w j e) ∙ h
]

stop_each_stays :
    (l : List (ℕ × ℕ)) (j : ℕ) (w : World)
    → (w.heap j).stopped ≡ true
    → ((stop_each l w).heap j).stopped ≡ true
unfolding stop_each
stop_each_stays [] j w h = h
stop_each_stays ((p, i) ∷ l) j w h =
    stop_each_stays l j (stop i system_error w) (stays_stopped i j w h)

stop_each_stops :
    (l : List (ℕ × ℕ)) (p j : ℕ) (w : World)
    → lookup p l ≡ some j
    → ((stop_each l w).heap j).stopped ≡ true
unfolding stop_each lookup
stop_each_stops [] p j w h = absurd (ground arith)
stop_each_stops ((q, i) ∷ l) p j w h = elim (Bool-cases (q == p)) [
  | inl e ↦
      let same : i ≡ j = ground arith in
      stop_each_stays l j (stop i system_error w) (
        subst (λ x. ((stop i system_error w).heap x).stopped ≡ true) same
          (stop_self i system_error w))
  | inr e ↦
      let later : lookup p l ≡ some j = ground arith in
      stop_each_stops l p j (stop i system_error w) later
]

stop_each-IsRegister : (l : List (ℕ × ℕ)) (w : World) → IsRegister w → IsRegister (stop_each l w)
unfolding stop_each
stop_each-IsRegister [] w k = k
stop_each-IsRegister ((q, i) ∷ l) w k =
    stop_each-IsRegister l (stop i system_error w) (stop-IsRegister i system_error w k)

-- Stopping all agents stops the agent of every player, and leaves the register right.
stop_all_agents_stops :
    (p i : ℕ) (w : World)
    → IsRegister w
    → get_agent p w ≡ some i
    → (((stop_all_agents w).heap i).stopped ≡ true) × IsRegister (stop_all_agents w)
unfolding stop_all_agents get_agent
stop_all_agents_stops p i w k h =
    (stop_each_stops w.agents p i w h, stop_each-IsRegister w.agents w k)

found_with :
    (o : Option ℕ) (session_id i : ℕ) (w : World)
    → (elim o as (λ _. Option ℕ) [
      | none ↦ none
      | some j ↦ if (w.heap j).session_id == session_id then some j else none
    ])
      ≡ some i
    → (o ≡ some i) × ((w.heap i).session_id ≡ session_id)
found_with none session_id i w h = absurd (ground arith)
found_with (some j) session_id i w h = elim (Bool-cases ((w.heap j).session_id == session_id)) [
  | inr e ↦ absurd (ground arith)
  | inl e ↦
      let same : j ≡ i = ground arith in
      (
        ap some same,
        ap (λ x. (w.heap x).session_id) (sym same) ∙ (==_iff (w.heap j).session_id session_id).0 e,
      )
]

-- An agent that is found for a player and a session, where the register is right, runs, is the
-- player's, and has that session.
get_agent_by_session_id_right :
    (p session_id i : ℕ) (w : World)
    → IsRegister w
    → get_agent_by_session_id p session_id w ≡ some i
    → ((w.heap i).stopped ≡ false)
      × ((w.heap i).player_id ≡ p)
      × ((w.heap i).session_id ≡ session_id)
unfolding get_agent_by_session_id get_agent
get_agent_by_session_id_right p session_id i w k h =
    let (o, s) = found_with (lookup p w.agents) session_id i w h in
    let r = k p i o in (r.running, r.own, s)
