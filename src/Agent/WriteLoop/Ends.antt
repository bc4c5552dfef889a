-- ===== src/Agent/WriteLoop/Ends.antt =====
-- How the loop that writes to a client ends, and what the client is told.
use ggs.Prelude.{
  ℕ, ◌≡◌, refl, ap, ◌∙◌, Bool, true, false, List, [], ◌∷◌, ◌++◌, if◌then◌else◌, if_elim, ==_refl,
  arith,
}
use ggs.Persist.{Bytes}
use ggs.Agent.{Reason, unknown, system_error, World, set_agent, del_agent, disconnect_player, stop}
use ggs.Agent.Register.{stop_self}
use ggs.Agent.WriteLoop.{
  Hook, no_hook, undecodable, login_game_resp, disconnect_push, Out, notified, send_message, Turn,
  receive, stop_seen, push_and_close, pending_packet_loop_stop, handle_packet, with_pending,
  receive_first, write_round, pending_packet_loop,
}

module _ (hook_of : Bytes → Hook) (i : ℕ) where
  -- The loop runs, or the agent has stopped and the connection is closed.
  abbrev pub IsEnd : Bool × Out → Type 0
  IsEnd (runs, o) = runs ≡ false → ((o.world.heap i).stopped ≡ true) × (o.closed ≡ true)

  push_and_close_world :
      (notify pushed : Bool) (o : Out) → (push_and_close hook_of i notify pushed o).world ≡ o.world
  push_and_close_world notify pushed o =
      if_elim (λ (q : Out). q.world ≡ o.world) notify
        (λ _.
          if_elim (λ (q : Out). q.world ≡ o.world) (notified (o.world.heap i).stop_reason)
            (λ _. if_elim (λ (q : Out). q.world ≡ o.world) pushed (λ _. refl) (λ _. refl))
            (λ _. refl))
        (λ _. refl)

  stops :
      (reason : Reason) (notify pushed : Bool) (o : Out)
      → IsEnd (false, pending_packet_loop_stop hook_of i true reason notify pushed o)
  unfolding pending_packet_loop_stop
  stops reason notify pushed o e =
      let q : Out = record o { world = stop i reason o.world } in
      (
        ap (λ (w : World). (w.heap i).stopped) (push_and_close_world notify pushed q)
            ∙ stop_self i reason o.world,
        refl,
      )

  handle_packet-IsEnd :
      (written pushed : Bool) (p : Bytes) (h : Hook) (o : Out)
      → IsEnd (handle_packet hook_of i written pushed p h o)
  unfolding handle_packet
  handle_packet-IsEnd written pushed p undecodable o = stops system_error true pushed o
  handle_packet-IsEnd written pushed p login_game_resp o = λ e. absurd (ground arith)
  handle_packet-IsEnd written pushed p no_hook o =
      if_elim IsEnd written (λ _ e. absurd (ground arith)) (λ _. stops system_error false pushed o)

  receive_first-IsEnd :
      (written pushed : Bool) (ps : List Bytes) (o : Out)
      → IsEnd (receive_first hook_of i written pushed ps o)
  receive_first-IsEnd written pushed [] o = λ e. absurd (ground arith)
  receive_first-IsEnd written pushed (p ∷ ps) o =
      handle_packet-IsEnd written pushed p (hook_of p) (with_pending hook_of i ps o)

  write_round-IsEnd : (t : Turn) (o : Out) → IsEnd (write_round hook_of i t o)
  unfolding write_round pending_packet_loop_stop
  write_round-IsEnd (receive written pushed) o =
      receive_first-IsEnd written pushed (o.world.heap i).pending_packets o
  write_round-IsEnd (stop_seen pushed) o =
      if_elim IsEnd (o.world.heap i).stopped
        (λ h e.
          (ap (λ (w : World). (w.heap i).stopped) (push_and_close_world true pushed o) ∙ h, refl))
        (λ _ e. absurd (ground arith))

  -- When the loop has ended, the agent has stopped and the connection is closed.
  pub pending_packet_loop-IsEnd :
      (ts : List Turn) (o : Out) → IsEnd (pending_packet_loop hook_of i ts o)
  unfolding pending_packet_loop
  pending_packet_loop-IsEnd [] o = λ e. absurd (ground arith)
  pending_packet_loop-IsEnd (t ∷ ts) o =
      if_elim IsEnd (write_round hook_of i t o).0
        (λ _. pending_packet_loop-IsEnd ts (write_round hook_of i t o).1)
        (λ e _. write_round-IsEnd t o e)

  abbrev told_or : Bool → Reason → Out → World → Out
  told_or b reason o w =
      let q : Out = record o { world = w } in
      record (if b then send_message true (disconnect_push reason) q else q) { closed = true }

  stop_seen_closes :
      (o : Out) (w : World) (reason : Reason)
      → (w.heap i).stopped ≡ true
      → (w.heap i).stop_reason ≡ reason
      → write_round hook_of i (stop_seen true) (record o { world = w })
        ≡ (false, told_or (notified reason) reason o w)
  unfolding write_round pending_packet_loop_stop
  stop_seen_closes o w reason e f =
      let q : Out = record o { world = w } in
      ap (λ b. if b then (false, push_and_close hook_of i true true q) else (true, q)) e
      ∙ ap (λ r. (false, told_or (notified r) r o w)) f

  stop_reason_self :
      (reason : Reason) (w : World)
      → (w.heap i).stopped ≡ false
      → ((stop i reason w).heap i).stop_reason ≡ reason
  unfolding stop del_agent disconnect_player
  stop_reason_self reason w r = ground (arith, ==_refl i)

  told :
      (reason : Reason) (o : Out)
      → (o.world.heap i).stopped ≡ false
      → notified reason ≡ true
      → write_round hook_of i (stop_seen true) (record o { world = stop i reason o.world }) ≡ (
        false,
        record o {
          world = stop i reason o.world;
          sent = o.sent ++ (disconnect_push reason ∷ []);
          closed = true;
        },
      )
  unfolding write_round pending_packet_loop_stop
  told reason o r n =
      stop_seen_closes o (stop i reason o.world) reason (stop_self i reason o.world)
        (stop_reason_self reason o.world r)
      ∙ ap (λ b. (false, told_or b reason o (stop i reason o.world))) n

  -- `stop` up to the moment at which the channel is closed, before the reason is stored.
  abbrev pub stop_signal : World → World
  stop_signal w = set_agent i (record (w.heap i) { stopped = true }) w

  untold :
      (o : Out)
      → (o.world.heap i).stop_reason ≡ unknown
      → write_round hook_of i (stop_seen true) (record o { world = stop_signal o.world })
        ≡ (false, record o { world = stop_signal o.world; closed = true })
  unfolding write_round pending_packet_loop_stop
  untold o u =
      stop_seen_closes o (stop_signal o.world) unknown (rw (==_refl i) refl) (rw (==_refl i) u)

  -- What the loop does on the signal while a running agent, which has no reason yet, is stopped for a
  -- reason, if the connection takes what is written. When it sees the signal after the reason is stored,
  -- it tells it to the client and closes the connection. When it sees the signal before, it closes the
  -- connection and tells nothing.
  pub stop_told :
      (reason : Reason) (o : Out)
      → (o.world.heap i).stopped ≡ false
      → (o.world.heap i).stop_reason ≡ unknown
      → notified reason ≡ true
      → (write_round hook_of i (stop_seen true) (record o { world = stop i reason o.world }) ≡ (
        false,
        record o {
          world = stop i reason o.world;
          sent = o.sent ++ (disconnect_push reason ∷ []);
          closed = true;
        },
      ))
        × (write_round hook_of i (stop_seen true) (record o { world = stop_signal o.world })
            ≡ (false, record o { world = stop_signal o.world; closed = true }))
  stop_told reason o r u n = (told reason o r n, untold o u)
