-- ===== src/Agent/Deliver.antt =====
-- Packets from the players: the queue of an agent is bounded, and keeps its order.
use mathlib.Core.Path.{subst}
use ggs.Prelude.{
  ℕ, ◌≤◌, ◌<◌, sym, ap, Bool, true, false, [], ◌∷◌, ◌++◌, ◌==◌, ==_iff, ltb, ltb→lt, if_elim,
  length, length-append, Bool-cases, Option-cases, inl, inr, arith,
}
use ggs.Prelude.Map.{nat_eq}
use ggs.Persist.{Bytes}
use ggs.Agent.{
  system_error, World, set_agent, get_agent, stop, Received, receive_packet, after_receive, deliver,
  handle_push, handle_response, handle_disconnect, max_pending_packets,
}
use ggs.Agent.Register.{IsRegister, IsRegistered, stop_pending, stop-IsRegister}

module _ (head_len : ℕ) (check : Bytes → Bool) where
  -- The packet `p` is put behind the agent's other packets.
  abbrev pub enqueued : Bytes → ℕ → World → World
  enqueued p i w =
      set_agent i (record (w.heap i) { pending_packets = (w.heap i).pending_packets ++ (p ∷ []) }) w

  enqueued-IsRegister : (p : Bytes) (i : ℕ) (w : World) → IsRegister w → IsRegister (enqueued p i w)
  enqueued-IsRegister p i w k q j h =
      let r = k q j h in
      elim (Bool-cases (i == j)) [
        | inl e ↦
            let own = subst (λ x. IsRegistered q x w) (sym ((==_iff i j).0 e)) r in
            record {
              running = ground (arith, own.running);
              own = ground (arith, own.own);
              connected = ground (arith, own.connected);
            }
        | inr e ↦ record {
          running = ground (arith, r.running);
          own = ground (arith, r.own);
          connected = ground (arith, r.connected);
        }
      ]

  -- A delivered packet is queued where there is room, or left, or it stops the agent.
  data Delivered (p : Bytes) (i : ℕ) (w : World) : World → Type 0 where
    taken :
        length (w.heap i).pending_packets < max_pending_packets → Delivered p i w (enqueued p i w)
    waits : Delivered p i w w
    stops : Delivered p i w (stop i system_error w)

  deliver-Delivered :
      (choice : Bool) (p : Bytes) (i : ℕ) (w : World)
      → Delivered p i w (deliver head_len check choice p i w)
  unfolding deliver receive_packet
  deliver-Delivered choice p i w =
      if_elim P (ltb (length p) head_len) (λ _. stops)
        (λ _.
          if_elim P (check p)
            (λ _.
              if_elim P (ltb (length (w.heap i).pending_packets) max_pending_packets)
                (λ room.
                  if_elim P (w.heap i).stopped
                    (λ _. if_elim P choice (λ _. taken (ltb→lt _ _ room)) (λ _. stops))
                    (λ _. taken (ltb→lt _ _ room)))
                (λ _. if_elim P (w.heap i).stopped (λ _. stops) (λ _. waits)))
            (λ _. stops))
    where
      P : Received × World → Type 0
      P x = Delivered p i w (after_receive head_len check i x)

  -- The queues are within their bound, and the register is right.
  pub record IsSound (w : World) : Type 0 where
    pub register : IsRegister w
    pub bounded : (i : ℕ) → length (w.heap i).pending_packets ≤ max_pending_packets

  stop-IsSound : (i : ℕ) (w : World) → IsSound w → IsSound (stop i system_error w)
  stop-IsSound i w k = record {
    register = stop-IsRegister i system_error w k.register;
    bounded = λ j. omega (arith, k.bounded j, ap length (stop_pending i system_error w j));
  }

  Delivered-IsSound :
      (p : Bytes) (i : ℕ) (w w' : World) → Delivered p i w w' → IsSound w → IsSound w'
  Delivered-IsSound p i w w' waits k = k
  Delivered-IsSound p i w w' stops k = stop-IsSound i w k
  Delivered-IsSound p i w w' (taken room) k = record {
    register = enqueued-IsRegister p i w k.register;
    bounded = λ j. ground (arith, k.bounded j, length-append (w.heap i).pending_packets (p ∷ []));
  }

  deliver-IsSound :
      (choice : Bool) (p : Bytes) (i : ℕ) (w : World)
      → IsSound w
      → IsSound (deliver head_len check choice p i w)
  deliver-IsSound choice p i w = Delivered-IsSound p i w _ (deliver-Delivered choice p i w)

  -- What reaches the agents from the players: a push, a response, or the end of a session.
  pub data Event : Type 0 where
    push : Bool → ℕ → Bytes → Event
    response : Bool → Bool → ℕ → Bytes → Event
    disconnect : ℕ → ℕ → Event

  pub handle : Event → World → World
  handle (push choice p b) w = handle_push head_len check choice p b w
  handle (response choice ok p b) w = handle_response head_len check choice ok p b w
  handle (disconnect p sid) w = handle_disconnect p sid w

  -- No push, response or end of a session, whatever it holds, makes a queue longer than ten packets,
  -- or leaves a player registered for an agent that has stopped or is another player's.
  pub handle-IsSound : (e : Event) (w : World) → IsSound w → IsSound (handle e w)
  unfolding handle handle_push handle_response handle_disconnect
  handle-IsSound (push choice p b) w k = elim (Option-cases (get_agent p w)) [
    | inl e ↦ rw (handle, handle_push, e) k
    | inr (i, e) ↦ rw (handle, handle_push, e) (deliver-IsSound choice b i w k)
  ]
  handle-IsSound (response choice true p b) w k = elim (Option-cases (get_agent p w)) [
    | inl e ↦ rw (handle, handle_response, e) k
    | inr (i, e) ↦ rw (handle, handle_response, e) (deliver-IsSound choice b i w k)
  ]
  handle-IsSound (response choice false p b) w k = elim (Option-cases (get_agent p w)) [
    | inl e ↦ rw (handle, handle_response, e) k
    | inr (i, e) ↦ rw (handle, handle_response, e) (stop-IsSound i w k)
  ]
  handle-IsSound (disconnect p sid) w k = elim (Option-cases (get_agent p w)) [
    | inl e ↦ rw (handle, handle_disconnect, e) k
    | inr (i, e) ↦ rw (handle, handle_disconnect, e) (stop-IsSound i w k)
  ]
