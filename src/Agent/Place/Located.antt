-- ===== src/Agent/Place/Located.antt =====
-- The location of a player whose login goes on.
use mathlib.Core.List.Memᴰ.{Memᴰ, head}
use mathlib.Core.Path.{subst}
use ggs.Prelude.{
  ℕ, ◌≡◌, ◌⊎◌, inl, inr, refl, sym, ap, ◌∙◌, true, false, Option, some, List, [], ◌∷◌,
  if◌then◌else◌, Result, ok, err, Bool-cases, arith,
}
use ggs.Prelude.Int.{ℤ, pos, leb_ℤ, ltb_ℤ}
use ggs.Router.{Text, node_game, Node, Selector, set_nodes, pick_game}
use ggs.Router.Groups.{PicksMembers, pick_game-set_nodes}
use ggs.Agent.{LoginRun, placed}
use ggs.Agent.Place.{
  RegistryError, other_error, actor_not_exists, ActorLocation, ActorRegistry, IsActorRegistry,
  is_empty, check_location, take_node, after_location, place_player, run_at, placed-place_player,
}

module _ (r : ActorRegistry) (now : ℤ) (law : IsActorRegistry r now) (node_id : Node → Text)
    (sel : Selector) (picks : PicksMembers node_id sel)
    (named : (n : Node) → is_empty (node_id n) ≡ false) where
  open r use {D}

  -- A location is that of before, or at a node of the game that serves the wanted server.
  abbrev pub IsPlace : ℕ → ℤ → List (Option Node) → D → ActorLocation → Type 0
  IsPlace p s nodes d l =
      (check_location now l ≡ true)
      × ((r.located p d ≡ some l)
          ⊎ ((n : Node) × Memᴰ (some n) nodes
              × (n.category ≡ node_game)
              × (n.server_id ≡ s)
              × (l.node_id ≡ node_id n)))

  valid :
      (l : ActorLocation)
      → is_empty l.node_id ≡ false
      → ltb_ℤ now l.expire_at ≡ true
      → check_location now l ≡ true
  valid l e h = elim (Bool-cases (leb_ℤ l.expire_at (pos 0))) [
    | inl f ↦ rw (e, f) refl
    | inr f ↦ rw (e, f, h) refl
  ]

  take_node-IsPlace :
      (p : ℕ) (s : ℤ) (nodes : List (Option Node)) (d d' : D) (key : Text) (st : sel.S)
      (picked : List Text)
      → picked ≡ pick_game node_id sel s key 1 (set_nodes node_id sel nodes true st)
      → (take_node r p picked d').0 ≡ true
      → (l : ActorLocation) × (r.located p (take_node r p picked d').1 ≡ some l)
        × IsPlace p s nodes d l
  take_node-IsPlace p s nodes d d' key st [] e h = absurd (ground arith)
  take_node-IsPlace p s nodes d d' key st (id ∷ ids) e h =
      let (n, m, c, on, same) =
        pick_game-set_nodes node_id sel picks s key 1 nodes st id (subst (Memᴰ id) e (head refl)) in
      let (until, later, located) = law.registers p 29 id d' h in
      let l : ActorLocation = record { node_id = id; expire_at = until } in
      (l, located, (valid l (ap is_empty same ∙ named n) later, inr (n, m, c, on, same)))

  place_player-located :
      (p : ℕ) (s : ℤ) (nodes : List (Option Node)) (key : Text) (st : sel.S) (d : D)
      → (place_player r now p
          (pick_game node_id sel s key 1 (set_nodes node_id sel nodes true st))
          d).0
        ≡ true
      → (l : ActorLocation) × (r.located p
            (place_player r now p
              (pick_game node_id sel s key 1 (set_nodes node_id sel nodes true st))
              d).1
          ≡ some l)
        × IsPlace p s nodes d l
  unfolding place_player
  place_player-located p s nodes key st d h = by_location (r.get_actor_location p d).0 refl h
    where
      picked : List Text
      picked = pick_game node_id sel s key 1 (set_nodes node_id sel nodes true st)

      after : D
      after = (r.get_actor_location p d).1

      by_location :
          (a : Result RegistryError ActorLocation)
          → (r.get_actor_location p d).0 ≡ a
          → (after_location r now p picked (a, after)).0 ≡ true
          → (l : ActorLocation) × (r.located p (after_location r now p picked (a, after)).1
              ≡ some l)
            × IsPlace p s nodes d l
      by_location (err other_error) e k = absurd (ground arith)
      by_location (err actor_not_exists) e k =
          take_node-IsPlace p s nodes d after key st picked refl k
      by_location (ok l) e k = elim (Bool-cases (check_location now l)) [
        | inl f ↦
            let stays = law.answers p l d e in
            rw f (l, stays, (f, inl (sym (law.asking_keeps p d) ∙ stays)))
        | inr f ↦ rw f (
            take_node-IsPlace p s nodes d after key st picked refl
              (subst (λ b. (if b then (true, after) else take_node r p picked after).0 ≡ true) f k))
      ]

  -- When a login goes on to connect the player, the register has a location for the player that has not
  -- expired: the one of before, or a node of the game that serves the player's server, of those that the
  -- agent was told last.
  pub placed-located :
      (p : ℕ) (s : ℤ) (nodes : List (Option Node)) (key : Text) (st : sel.S) (d : D)
      (run : LoginRun)
      → placed (
          run_at r now p
            (pick_game node_id sel s key 1 (set_nodes node_id sel nodes true st))
            d
            run)
        ≡ true
      → (l : ActorLocation) × (r.located p
            (place_player r now p
              (pick_game node_id sel s key 1 (set_nodes node_id sel nodes true st))
              d).1
          ≡ some l)
        × IsPlace p s nodes d l
  placed-located p s nodes key st d run h =
      place_player-located p s nodes key st d (sym (placed-place_player r now p _ d run) ∙ h)
