-- ===== src/Agent/Login.antt =====
-- A login keeps the register right, and its agent takes the place of the player's former one.
use mathlib.Core.Path.{subst}
use ggs.Prelude.{
  ℕ, ◌≡◌, ◌≢◌, refl, sym, ap, ◌∙◌, true, false, some, ◌∷◌, ◌==◌, ==_iff, ==_refl, if◌then◌else◌,
  Bool-cases, Option-cases, inl, inr, arith,
}
use ggs.Prelude.Map.{nat_eq, lookup, lookup-insert}
use ggs.Agent.{
  system_error, another_login, unknown, login_timeout, World, is_connected, add_agent, del_agent,
  get_agent, stop, TokenInfo, LoginRun, placed, stop_another, join, enter, handle_login_req,
}
use ggs.Agent.Register.{
  IsRegister, IsRegistered, stop_heap, stop_self, stop_disconnected, stop-IsRegister,
  del_agent-IsRegister,
}

stop_another-IsRegister : (p : ℕ) (w : World) → IsRegister w → IsRegister (stop_another p w)
unfolding stop_another
stop_another-IsRegister p w k = elim (Option-cases (get_agent p w)) [
  | inl e ↦ rw (e, stop_another) k
  | inr (j, e) ↦
      rw (e, stop_another)
        (stop-IsRegister j another_login (del_agent j w) (del_agent-IsRegister j w k))
]

-- An agent that has not logged in, as `NewAgent` makes it.
pub record IsIdle (i : ℕ) (w : World) : Type 0 where
  pub running : (w.heap i).stopped ≡ false
  pub no_player : (w.heap i).player_id ≡ 0

stop_another-IsIdle :
    (i p : ℕ) (w : World) → IsRegister w → IsIdle i w → IsIdle i (stop_another p w)
unfolding stop_another get_agent del_agent
stop_another-IsIdle i p w k a = elim (Option-cases (lookup p w.agents)) [
  | inl e ↦ rw (stop_another, get_agent, e) a
  | inr (j, e) ↦
      let r = k p j e in
      elim (Bool-cases (j == i)) [
        | inl f ↦
            let own = subst (λ x. IsRegistered p x w) ((==_iff j i).0 f) r in
            absurd (ground (arith, own.connected, a.no_player))
        | inr f ↦
            let same = stop_heap j another_login (del_agent j w) i f in
            rw (stop_another, get_agent, e)
              (record {
                running = ap (λ x. x.stopped) same ∙ a.running;
                no_player = ap (λ x. x.player_id) same ∙ a.no_player;
              })
      ]
]

module _ (i p session : ℕ) (w : World) where
  join_heap : (j : ℕ) → (i == j) ≡ false → (join i p session w).heap j ≡ w.heap j
  unfolding join add_agent
  join_heap j h = ground arith

  lookup-join :
      (q : ℕ)
      → lookup q (join i p session w).agents ≡ (if p == q then some i else lookup q w.agents)
  unfolding join add_agent
  lookup-join q = rw (==_refl i) (lookup-insert p q i w.agents)

  join_stopped : (j : ℕ) → ((join i p session w).heap j).stopped ≡ (w.heap j).stopped
  unfolding join add_agent
  join_stopped j = ground arith

  join_disconnected : (join i p session w).disconnected ≡ w.disconnected
  unfolding join add_agent
  join_disconnected = refl

module _ (i p session : ℕ) (w : World) (player : p ≢ 0) (named : session ≢ 0) where
  join-IsRegistered : IsIdle i w → IsRegistered p i (join i p session w)
  unfolding join add_agent
  join-IsRegistered a = record {
    running = ground (arith, ==_refl i, a.running);
    own = ground (arith, ==_refl i);
    connected = ground (arith, ==_refl i);
  }

  join-IsRegister : IsRegister w → IsIdle i w → IsRegister (join i p session w)
  join-IsRegister k a q j h = elim (Bool-cases (p == q)) [
    | inl e ↦
        let same : i ≡ j = ground (arith, lookup-join i p session w q) in
        let at = (==_iff p q).0 e in
        subst (λ x. IsRegistered q x (join i p session w)) same
          (subst (λ x. IsRegistered x i (join i p session w)) at (join-IsRegistered a))
    | inr e ↦
        let r = k q j (ground (arith, lookup-join i p session w q)) in
        elim (Bool-cases (i == j)) [
          | inl f ↦
              let own = subst (λ x. IsRegistered q x w) (sym ((==_iff i j).0 f)) r in
              absurd (ground (arith, own.connected, a.no_player))
          | inr f ↦ record {
            running = ap (λ x. x.stopped) (join_heap i p session w j f) ∙ r.running;
            own = ap (λ x. x.player_id) (join_heap i p session w j f) ∙ r.own;
            connected = ap is_connected (join_heap i p session w j f) ∙ r.connected;
          }
        ]
  ]

enter-IsRegister :
    (i p : ℕ) (r : LoginRun) (w : World)
    → p ≢ 0
    → r.session_id ≢ 0
    → IsRegister w
    → IsIdle i w
    → IsRegister (enter i p r w)
unfolding enter
enter-IsRegister i p r w player named k a =
    let k' = join-IsRegister i p r.session_id w player named k a in
    elim (Bool-cases r.forwarded) [
      | inl e ↦ rw (e, enter) k'
      | inr e ↦
          rw (e, enter)
            (stop-IsRegister i system_error _ (del_agent-IsRegister i (join i p r.session_id w) k'))
    ]

-- A login of an agent that has not logged in keeps the register right on every branch: whatever
-- fails, a registered agent runs, is connected, and is registered for its own player. The player and
-- the session of a login are not 0.
pub handle_login_req-IsRegister :
    (i : ℕ) (r : LoginRun) (w : World)
    → ((t : TokenInfo) → r.token ≡ some t → t.character_id ≢ 0)
    → r.session_id ≢ 0
    → IsRegister w
    → IsIdle i w
    → IsRegister (handle_login_req i r w)
unfolding handle_login_req enter
handle_login_req-IsRegister i r w player named k a = elim (Option-cases r.token) [
  | inl e ↦
      rw (e, handle_login_req)
        (stop-IsRegister i unknown _ (λ p j h.
          let x = k p j h in record { running = x.running; own = x.own; connected = x.connected }))
  | inr (t, e) ↦
      let w' = stop_another t.character_id w in
      let k' = stop_another-IsRegister t.character_id w k in
      elim (Bool-cases r.locked) [
        | inr l ↦ rw (e, handle_login_req, l) (stop-IsRegister i login_timeout w k)
        | inl l ↦ elim (Bool-cases (placed r)) [
          | inr f ↦ rw (e, handle_login_req, l, f) (stop-IsRegister i system_error w' k')
          | inl f ↦ elim (Bool-cases r.connected) [
            | inr c ↦ rw (e, handle_login_req, l, f, c) (stop-IsRegister i system_error w' k')
            | inl c ↦
                rw (e, handle_login_req, l, f, c)
                  (enter-IsRegister i t.character_id r w' (player t e) named k'
                    (stop_another-IsIdle i t.character_id w k a))
          ]
        ]
      ]
]

-- Every service that a login needs has answered well.
pub record IsServed (t : TokenInfo) (r : LoginRun) : Type 0 where
  pub token : r.token ≡ some t
  pub locked : r.locked ≡ true
  pub placed_at : placed r ≡ true
  pub connected : r.connected ≡ true
  pub forwarded : r.forwarded ≡ true

pub login_served :
    (i : ℕ) (t : TokenInfo) (r : LoginRun) (w : World)
    → IsServed t r
    → handle_login_req i r w ≡ join i t.character_id r.session_id (stop_another t.character_id w)
unfolding handle_login_req enter
login_served i t r w s =
    simp (handle_login_req, s.token, s.locked, s.placed_at, s.connected, enter, s.forwarded) refl

-- When every service answers well, a login for a player who has an agent ends with the new agent
-- registered for the player, the former one stopped, and the player told to end its session.
pub login_replaces :
    (i j : ℕ) (t : TokenInfo) (r : LoginRun) (w : World)
    → IsServed t r
    → IsRegister w
    → get_agent t.character_id w ≡ some j
    → let w' = handle_login_req i r w in
      (get_agent t.character_id w' ≡ some i)
      × ((w'.heap j).stopped ≡ true)
      × (w'.disconnected ≡ (t.character_id, (w.heap j).session_id) ∷ w.disconnected)
unfolding get_agent stop_another del_agent
login_replaces i j t r w s k h =
    let p = t.character_id in
    let former = stop j another_login (del_agent j w) in
    let x = k p j h in
    let stopped_former : stop_another p w ≡ former = rw (stop_another, get_agent, h) refl in
    let result : handle_login_req i r w ≡ join i p r.session_id former =
      login_served i t r w s ∙ ap (join i p r.session_id) stopped_former in
    rw result (
      lookup-join i p r.session_id former p ∙ rw (==_refl p) refl,
      join_stopped i p r.session_id former j ∙ stop_self j another_login (del_agent j w),
      join_disconnected i p r.session_id former
          ∙ stop_disconnected j another_login (del_agent j w) x.running x.connected
          ∙ ap (λ q. (q, (w.heap j).session_id) ∷ w.disconnected) x.own,
    )

-- When an agent logs in again for the player it is registered for, and every service answers well,
-- the register is not right any more: the player's agent has stopped.
relogin_breaks :
    (i : ℕ) (t : TokenInfo) (r : LoginRun) (w : World)
    → IsServed t r
    → IsRegister w
    → get_agent t.character_id w ≡ some i
    → ¬ IsRegister (handle_login_req i r w)
unfolding get_agent
relogin_breaks i t r w s k h k' =
    let (found, halted, _) = login_replaces i i t r w s k h in
    let x = k' t.character_id i found in absurd (ground (arith, x.running, halted))
