-- ===== src/Agent/Place.antt =====
-- Where a player who logs in is played: the part of `handleLoginReq` that looks for the player's
-- location and chooses a node (app/agent/internal/infra/agent/hook_login.go and actor.go).
--
-- The register of actors is a library's and a parameter, and so is the selector of nodes.
pub mod Located
mod Samples
use mathlib.Core.List.Memᴰ.{Memᴰ, head}
use mathlib.Core.Path.{subst}
use ggs.Prelude.{
  ℕ, zero, suc, ◌≡◌, ◌⊎◌, inl, inr, refl, sym, ap, ◌∙◌, Bool, true, false, not, ◌&&◌, ◌||◌, Option,
  none, some, List, [], ◌∷◌, if◌then◌else◌, Result, ok, err, Result-cases, Bool-cases, arith,
}
use ggs.Prelude.Int.{ℤ, pos, leb_ℤ, ltb_ℤ}
use ggs.Router.{Text, node_game, Node, Selector, set_nodes, pick_game}
use ggs.Router.Groups.{PicksMembers, pick_game-set_nodes}
use ggs.Agent.{
  TokenInfo, Location, location_error, no_actor, location, LoginRun, placed, World,
  handle_login_req,
}

pub data RegistryError : Type 0 where
  actor_not_exists other_error : RegistryError

-- `gactor.ActorLocation`; times are seconds.
pub record ActorLocation : Type 0 where
  pub node_id : Text
  pub expire_at : ℤ

-- The register: `located` is the location of a player.
pub record ActorRegistry : Type 1 where
  pub D : Type 0
  pub located : ℕ → D → Option ActorLocation
  pub get_actor_location : ℕ → D → Result RegistryError ActorLocation × D
  pub register_actor : ℕ → Text → ℕ → D → Bool × D

abbrev pub player_pre_register_ttl : ℕ
player_pre_register_ttl = 30

abbrev pub is_empty : Text → Bool
is_empty [] = true
is_empty (x ∷ l) = false

-- `checkLocation`
abbrev pub check_location : ℤ → ActorLocation → Bool
check_location now l =
    not (is_empty l.node_id) && (leb_ℤ l.expire_at (pos 0) || ltb_ℤ now l.expire_at)

-- What is relied on of the register at a time: what it answers is what it has, asking leaves it, and
-- what was registered for some seconds has not expired.
pub record IsActorRegistry (r : ActorRegistry) (now : ℤ) : Type 0 where
  pub answers :
      (p : ℕ) (l : ActorLocation) (d : r.D)
      → (r.get_actor_location p d).0 ≡ ok l
      → r.located p (r.get_actor_location p d).1 ≡ some l
  pub asking_keeps : (p : ℕ) (d : r.D) → r.located p (r.get_actor_location p d).1 ≡ r.located p d
  pub registers :
      (p ttl : ℕ) (node : Text) (d : r.D)
      → (r.register_actor p node (suc ttl) d).0 ≡ true
      → (e : ℤ) × (ltb_ℤ now e ≡ true)
        × (r.located p (r.register_actor p node (suc ttl) d).1
            ≡ some (record { node_id = node; expire_at = e }))

module _ (r : ActorRegistry) where
  open r use {D}

  -- `updatePlayerLocation` and `getPlayerLocation`
  abbrev pub update_player_location : ℕ → Text → D → Bool × D
  update_player_location p node d = r.register_actor p node player_pre_register_ttl d

  abbrev pub get_player_location : ℕ → D → Result RegistryError ActorLocation × D
  get_player_location p d = r.get_actor_location p d

  -- The first of the nodes that the selector picks takes the player.
  abbrev pub take_node : ℕ → List Text → D → Bool × D
  take_node p [] d = (false, d)
  take_node p (node ∷ nodes) d = update_player_location p node d

  abbrev pub after_location : ℤ → ℕ → List Text → Result RegistryError ActorLocation × D → Bool × D
  after_location now p picked (err other_error, d) = (false, d)
  after_location now p picked (err actor_not_exists, d) = take_node p picked d
  after_location now p picked (ok l, d) =
      if check_location now l then (true, d) else take_node p picked d

  -- The part of `handleLoginReq`: whether the player has a node, with what `PickGame` would answer.
  unfoldable pub place_player : ℤ → ℕ → List Text → D → Bool × D
  place_player now p picked d = after_location now p picked (get_player_location p d)

  -- What the login sees of the register.
  abbrev pub seen_location : ℤ → Result RegistryError ActorLocation → Location
  seen_location now (err other_error) = location_error
  seen_location now (err actor_not_exists) = no_actor
  seen_location now (ok l) = location (check_location now l)

  abbrev pub is_updated : ℕ → List Text → D → Bool
  is_updated p [] d = false
  is_updated p (node ∷ nodes) d = (update_player_location p node d).0

  -- A login with what the register and the selector answer.
  abbrev pub run_at : ℤ → ℕ → List Text → D → LoginRun → LoginRun
  run_at now p picked d run =
      let (l, d') = get_player_location p d in
      record run { place = seen_location now l; picked = picked; updated = is_updated p picked d' }

  placed-after_location :
      (now : ℤ) (p : ℕ) (picked : List Text) (l : Result RegistryError ActorLocation) (d : D)
      (run : LoginRun)
      → placed (record run {
        place = seen_location now l;
        picked = picked;
        updated = is_updated p picked d;
      })
        ≡ (after_location now p picked (l, d)).0
  placed-after_location now p [] (err other_error) d run = refl
  placed-after_location now p (x ∷ l) (err other_error) d run = refl
  placed-after_location now p [] (err actor_not_exists) d run = refl
  placed-after_location now p (x ∷ l) (err actor_not_exists) d run = refl
  placed-after_location now p [] (ok l) d run = elim (Bool-cases (check_location now l)) [
    | inl e ↦ rw e refl
    | inr e ↦ rw e refl
  ]
  placed-after_location now p (x ∷ xs) (ok l) d run = elim (Bool-cases (check_location now l)) [
    | inl e ↦ rw e refl
    | inr e ↦ rw e refl
  ]

  -- The login goes on exactly when the player is placed.
  pub placed-place_player :
      (now : ℤ) (p : ℕ) (picked : List Text) (d : D) (run : LoginRun)
      → placed (run_at now p picked d run) ≡ (place_player now p picked d).0
  unfolding place_player
  placed-place_player now p picked d run =
      placed-after_location now p picked (get_player_location p d).0 (get_player_location p d).1 run
