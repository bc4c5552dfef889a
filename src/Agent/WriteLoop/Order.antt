-- ===== src/Agent/WriteLoop/Order.antt =====
-- The packets that wait are forwarded in their order.
use ggs.Prelude.{
  ℕ, ◌≡◌, refl, ap, ◌∙◌, Bool, true, List, [], ◌∷◌, ◌++◌, append_assoc, append-nil, if_elim,
  ==_refl, arith,
}
use ggs.Persist.{Bytes}
use ggs.Agent.{system_error}
use ggs.Agent.Register.{stop_pending}
use ggs.Agent.WriteLoop.{
  Hook, no_hook, undecodable, login_game_resp, Sent, forwarded, login_resp, disconnect_push, Out,
  Turn, receive, stop_seen, handle_packet, with_pending, receive_first, write_round,
  pending_packet_loop,
}

module _ (hook_of : Bytes → Hook) (i : ℕ) where
  -- What of it is forwarded.
  abbrev pub of_hook : Hook → Bytes → List Bytes → List Bytes
  of_hook no_hook p ps = p ∷ ps
  of_hook _ p ps = ps

  abbrev pub unhooked : List Bytes → List Bytes
  unhooked [] = []
  unhooked (p ∷ ps) = of_hook (hook_of p) p (unhooked ps)

  abbrev pub packets_of : List Sent → List Bytes
  packets_of [] = []
  packets_of (forwarded p ∷ xs) = p ∷ packets_of xs
  packets_of (login_resp ∷ xs) = packets_of xs
  packets_of (disconnect_push r ∷ xs) = packets_of xs

  packets_of-append : (xs ys : List Sent) → packets_of (xs ++ ys) ≡ packets_of xs ++ packets_of ys
  packets_of-append [] ys = refl
  packets_of-append (forwarded p ∷ xs) ys = ap (◌∷◌ p) (packets_of-append xs ys)
  packets_of-append (login_resp ∷ xs) ys = packets_of-append xs ys
  packets_of-append (disconnect_push r ∷ xs) ys = packets_of-append xs ys

  -- The packets forwarded so far, and those that wait to be.
  abbrev pub in_order : Out → List Bytes
  in_order o = packets_of o.sent ++ unhooked (o.world.heap i).pending_packets

  abbrev Keeps : List Bytes → Bool × Out → Type 0
  Keeps ps (runs, o) = runs ≡ true → in_order o ≡ ps

  with_pending_self :
      (ps : List Bytes) (o : Out)
      → ((with_pending hook_of i ps o).world.heap i).pending_packets ≡ ps
  with_pending_self ps o = rw (==_refl i) refl

  handle_packet-Keeps :
      (written pushed : Bool) (p : Bytes) (h : Hook) (o : Out)
      → Keeps
          (packets_of o.sent ++ of_hook h p (unhooked (o.world.heap i).pending_packets))
          (handle_packet hook_of i written pushed p h o)
  unfolding handle_packet
  handle_packet-Keeps written pushed p undecodable o = λ e. absurd (ground arith)
  handle_packet-Keeps written pushed p login_game_resp o = λ _.
      if_elim
        (λ (q : Out). in_order q ≡ packets_of o.sent ++ unhooked (o.world.heap i).pending_packets)
        written
        (λ _.
          ap (λ l. l ++ unhooked (o.world.heap i).pending_packets)
            (packets_of-append o.sent (login_resp ∷ []) ∙ append-nil (packets_of o.sent)))
        (λ _. ap (λ l. packets_of o.sent ++ unhooked l) (stop_pending i system_error o.world i))
  handle_packet-Keeps written pushed p no_hook o =
      if_elim (Keeps (packets_of o.sent ++ (p ∷ unhooked (o.world.heap i).pending_packets))) written
        (λ _ _.
          ap (λ l. l ++ unhooked (o.world.heap i).pending_packets)
            (packets_of-append o.sent (forwarded p ∷ []))
          ∙ append_assoc (packets_of o.sent) (p ∷ []) (unhooked (o.world.heap i).pending_packets))
        (λ _ e. absurd (ground arith))

  receive_first-Keeps :
      (written pushed : Bool) (ps : List Bytes) (o : Out)
      → (o.world.heap i).pending_packets ≡ ps
      → Keeps (packets_of o.sent ++ unhooked ps) (receive_first hook_of i written pushed ps o)
  receive_first-Keeps written pushed [] o h = λ _. ap (λ l. packets_of o.sent ++ unhooked l) h
  receive_first-Keeps written pushed (p ∷ ps) o h = λ e.
      handle_packet-Keeps written pushed p (hook_of p) (with_pending hook_of i ps o) e
      ∙ ap (λ l. packets_of o.sent ++ of_hook (hook_of p) p (unhooked l)) (with_pending_self ps o)

  write_round-Keeps : (t : Turn) (o : Out) → Keeps (in_order o) (write_round hook_of i t o)
  unfolding write_round
  write_round-Keeps (receive written pushed) o =
      receive_first-Keeps written pushed (o.world.heap i).pending_packets o refl
  write_round-Keeps (stop_seen pushed) o =
      if_elim (Keeps (in_order o)) (o.world.heap i).stopped (λ _ e. absurd (ground arith))
        (λ _ _. refl)

  -- While the loop runs, the packets that were forwarded and those that wait are, without the ones
  -- that have a hook, what they were at first: none is lost, and none overtakes another.
  pub pending_packet_loop-in_order :
      (ts : List Turn) (o : Out)
      → (pending_packet_loop hook_of i ts o).0 ≡ true
      → in_order (pending_packet_loop hook_of i ts o).1 ≡ in_order o
  unfolding pending_packet_loop
  pending_packet_loop-in_order [] o = λ e. refl
  pending_packet_loop-in_order (t ∷ ts) o =
      if_elim (λ (r : Bool × Out). r.0 ≡ true → in_order r.1 ≡ in_order o)
        (write_round hook_of i t o).0
        (λ e k.
          pending_packet_loop-in_order ts (write_round hook_of i t o).1 k ∙ write_round-Keeps t o e)
        (λ _ e. absurd (ground arith))
