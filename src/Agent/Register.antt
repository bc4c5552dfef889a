-- ===== src/Agent/Register.antt =====
-- A registered agent runs, and is the agent of the player it is registered for.
use mathlib.Core.Path.{subst}
use ggs.Prelude.{
  ℕ, ◌≡◌, refl, sym, ap, ◌∙◌, true, false, none, some, ◌∷◌, ◌==◌, ==_iff, ==_refl, Bool-cases, inl,
  inr, arith,
}
use ggs.Prelude.Map.{nat_eq, lookup, lookup-erase}
use ggs.Agent.{Reason, World, is_connected, del_agent, disconnect_player, stop}

pub record IsRegistered (player_id i : ℕ) (w : World) : Type 0 where
  pub running : (w.heap i).stopped ≡ false
  pub own : (w.heap i).player_id ≡ player_id
  pub connected : is_connected (w.heap i) ≡ true

abbrev pub IsRegister : World → Type 0
IsRegister w = (p i : ℕ) → lookup p w.agents ≡ some i → IsRegistered p i w

module _ (i : ℕ) (reason : Reason) (w : World) where
  stop-stopped : (w.heap i).stopped ≡ true → stop i reason w ≡ w
  unfolding stop
  stop-stopped e = rw e refl

  pub stop_heap : (j : ℕ) → (i == j) ≡ false → (stop i reason w).heap j ≡ w.heap j
  unfolding stop del_agent disconnect_player
  stop_heap j h = ground arith

  pub stop_self : ((stop i reason w).heap i).stopped ≡ true
  unfolding stop del_agent disconnect_player
  stop_self = ground (arith, ==_refl i)

  pub stop_pending :
      (j : ℕ) → ((stop i reason w).heap j).pending_packets ≡ (w.heap j).pending_packets
  unfolding stop del_agent disconnect_player
  stop_pending j = ground arith

  pub stop_disconnected :
      (w.heap i).stopped ≡ false
      → is_connected (w.heap i) ≡ true
      → (stop i reason w).disconnected
        ≡ ((w.heap i).player_id, (w.heap i).session_id) ∷ w.disconnected
  unfolding stop del_agent disconnect_player
  stop_disconnected e c = ground (arith, ==_refl i)

  lookup-stop : (p j : ℕ) → lookup p (stop i reason w).agents ≡ some j → lookup p w.agents ≡ some j
  unfolding stop del_agent disconnect_player
  lookup-stop p j h = ground (arith, ==_refl i, lookup-erase (w.heap i).player_id p w.agents)

  stop_unregisters :
      (w.heap i).stopped ≡ false
      → is_connected (w.heap i) ≡ true
      → lookup (w.heap i).player_id (stop i reason w).agents ≡ none
  unfolding stop del_agent disconnect_player
  stop_unregisters e c =
      rw (stop, e, c, ==_refl i)
        (lookup-erase (w.heap i).player_id (w.heap i).player_id w.agents
          ∙ rw (==_refl (w.heap i).player_id) refl)

  -- When a registered agent stops, its player has no agent.
  stop_registered : (p : ℕ) → IsRegistered p i w → lookup p (stop i reason w).agents ≡ none
  stop_registered p r =
      ap (λ q. lookup q (stop i reason w).agents) (sym r.own)
      ∙ stop_unregisters r.running r.connected

  pub stop-IsRegister : IsRegister w → IsRegister (stop i reason w)
  stop-IsRegister k p j h =
      let r = k p j (lookup-stop p j h) in
      elim (Bool-cases (i == j)) [
        | inr e ↦ record {
          running = ap (λ a. a.stopped) (stop_heap j e) ∙ r.running;
          own = ap (λ a. a.player_id) (stop_heap j e) ∙ r.own;
          connected = ap is_connected (stop_heap j e) ∙ r.connected;
        }
        | inl e ↦
            let own = subst (λ x. IsRegistered p x w) (sym ((==_iff i j).0 e)) r in
            let gone = stop_registered p own in absurd (ground arith)
      ]

-- A stopped agent stays as its first stop left it.
stop_again : (i : ℕ) (r r' : Reason) (w : World) → stop i r' (stop i r w) ≡ stop i r w
stop_again i r r' w = stop-stopped i r' (stop i r w) (stop_self i r w)

-- Removing the agent of a player leaves the register right.
pub del_agent-IsRegister : (i : ℕ) (w : World) → IsRegister w → IsRegister (del_agent i w)
unfolding del_agent
del_agent-IsRegister i w k p j h =
    let r = k p j (ground (arith, lookup-erase (w.heap i).player_id p w.agents)) in
    record { running = r.running; own = r.own; connected = r.connected }
