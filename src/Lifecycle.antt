-- ===== src/Lifecycle.antt =====
-- The registers of what runs when an actor starts, stops and is connected
-- (internal/infra/actor/lifecycle/lifecycle.go), and before an application starts
-- (internal/base/lifecycle/lifecycle.go).
--
-- `A` is an actor of any type, with what the callbacks change. `none` is a panic.
pub mod Register
mod Samples
use mathlib.Core.List.Memᴰ.{Memᴰ, head, tail}
use ggs.Prelude.{
  ==_refl, ℕ, ◌≡◌, refl, sym, ap, ◌∙◌, Bool, true, false, Option, none, some, List, [], ◌∷◌, ◌++◌,
  ◌==◌, ==_iff, if◌then◌else◌, Bool-cases, Option-cases, inl, inr, arith,
}
use ggs.Prelude.Map.{Map, nat_eq, lookup, insert, lookup-insert}

-- `Handler`: the type of the actor that it is for, the assertion of that type, and the callbacks, which say
-- what becomes of the actor.
pub record Callbacks (A E : Type 0) : Type 1 where
  pub Actor : Type 0
  pub as_actor : A → Option Actor
  pub on_start : Actor → Option E × A
  pub on_stop : Actor → A

-- `CHandler`
pub record CCallbacks (A E : Type 0) : Type 1 where
  pub base : Callbacks A E
  pub on_connected : base.Actor → A
  pub on_disconnected : base.Actor → A

pub data Handler (A E : Type 0) : Type 1 where
  plain : Callbacks A E → Handler A E
  client : CCallbacks A E → Handler A E

abbrev pub callbacks : {A E : Type 0} → Handler A E → Callbacks A E
callbacks (plain c) = c
callbacks (client c) = c.base

-- A callback of a wrapper, `hanndlerWrapper` or `cHanndlerWrapper`: the assertion `actor.(Actor)` panics when
-- the actor is of another type.
abbrev pub wrapped : {Actor B : Type 0} → Option Actor → (Actor → B) → Option B
wrapped none f = none
wrapped (some x) f = some (f x)

module _ {A E : Type 0} where
  -- `registerHandler`, with `RegisterHandler` and `RegisterCHandler` in front
  unfoldable pub register_handler :
      ℕ → Handler A E → Map ℕ (Handler A E) → Option (Map ℕ (Handler A E))
  register_handler category h m = elim (lookup category m) [
    | some _ ↦ none
    | none ↦ some (insert category h m)
  ]

  unfoldable pub register_all :
      List (ℕ × Handler A E) → Map ℕ (Handler A E) → Option (Map ℕ (Handler A E))
  register_all [] m = some m
  register_all ((category, h) ∷ rest) m = elim (register_handler category h m) [
    | none ↦ none
    | some m' ↦ register_all rest m'
  ]

  -- What a registered handler, or none, does when an actor starts and stops.
  abbrev pub start_by : Option (Handler A E) → A → Option (Option E × A)
  start_by none a = some (none, a)
  start_by (some h) a = wrapped ((callbacks h).as_actor a) (callbacks h).on_start

  abbrev pub stop_by : Option (Handler A E) → A → Option A
  stop_by none a = some a
  stop_by (some h) a = wrapped ((callbacks h).as_actor a) (callbacks h).on_stop

  -- `OnStart`, `OnStop`, `OnConnected`, `OnDisconnected` of an actor of the category
  unfoldable pub on_start : Map ℕ (Handler A E) → ℕ → A → Option (Option E × A)
  on_start m category a = start_by (lookup category m) a

  unfoldable pub on_stop : Map ℕ (Handler A E) → ℕ → A → Option A
  on_stop m category a = stop_by (lookup category m) a

  -- A handler that is none of a client's actor fails the assertion `handler.(cHandler)`.
  abbrev pub connect : Option (Handler A E) → A → Option A
  connect none a = some a
  connect (some (plain c)) a = none
  connect (some (client c)) a = wrapped (c.base.as_actor a) c.on_connected

  abbrev pub disconnect : Option (Handler A E) → A → Option A
  disconnect none a = some a
  disconnect (some (plain c)) a = none
  disconnect (some (client c)) a = wrapped (c.base.as_actor a) c.on_disconnected

  unfoldable pub on_connected : Map ℕ (Handler A E) → ℕ → A → Option A
  on_connected m category a = connect (lookup category m) a

  unfoldable pub on_disconnected : Map ℕ (Handler A E) → ℕ → A → Option A
  on_disconnected m category a = disconnect (lookup category m) a

  -- `OnStart` of a player: its model is loaded first, and what is registered runs only without an
  -- error. `OnStop` runs it before the model is saved.
  unfoldable pub player_on_start :
      Map ℕ (Handler A E) → ℕ → (A → Option E × A) → A → Option (Option E × A)
  player_on_start m category load a =
      let (e, a') = load a in elim e [ some x ↦ some (some x, a') | none ↦ on_start m category a' ]

  unfoldable pub player_on_stop :
      Map ℕ (Handler A E) → ℕ → (A → Option E × A) → A → Option (Option E × A)
  player_on_stop m category save a = elim (on_stop m category a) [
    | none ↦ none
    | some a' ↦ some (save a')
  ]

-- `RegisterBeforeStart` and `BeforeStart`
abbrev pub register_before_start : {S : Type 0} → (S → S) → List (S → S) → List (S → S)
register_before_start cb cbs = cbs ++ (cb ∷ [])

abbrev pub before_start : {S : Type 0} → List (S → S) → S → S
before_start [] s = s
before_start (cb ∷ cbs) s = before_start cbs (cb s)
