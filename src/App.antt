-- ===== src/App.antt =====
-- Starting and stopping the applications (app.go, actor.go, cluster.go, http.go and listen.go of
-- app/agent/internal/app, app/game/internal/app, app/login/internal/app and
-- app/platform/internal/app).
--
-- What a call of a library does is whether it fails. A start goes through the states of the
-- application's fields, one after each assignment; other goroutines can run from any of them on.
pub mod Agent
pub mod Game
pub mod Web
mod Samples
use ggs.Prelude.{
  ℕ, ◌≡◌, refl, Bool, true, false, Option, none, some, List, [], ◌∷◌, ◌++◌, if◌then◌else◌, arith,
}

-- Why a start ends the process: by a panic, or by logging a fatal error.
pub data Failure : Type 0 where
  load_config init_redis init_mongo start_mongobd load_gdconf init_crypto : Failure
  ensure_mongo_indexes start_actor start_cluster start_listening no_routes : Failure

-- A start, or what is left of it: why it ended, if it did, its last state and those that it passed.
pub record Run (A : Type 0) : Type 0 where
  pub failure : Option Failure
  pub last : A
  pub passed : List A

module _ {A : Type 0} where
  -- The end of `Start`
  abbrev pub started : A → Run A
  started a = record { failure = none; last = a; passed = [] }

  -- An assignment, and what follows.
  unfoldable pub assign : (A → A) → (A → Run A) → A → Run A
  assign set next a =
      let rest = next (set a) in
      record { failure = rest.failure; last = rest.last; passed = set a ∷ rest.passed }

  -- A call that ends the process when it fails, and else an assignment, and what follows.
  unfoldable pub attempt : Bool → Failure → (A → A) → (A → Run A) → A → Run A
  attempt works f set next a =
      let rest = assign set next a in
      if works then rest else record { failure = some f; last = a; passed = [] }

  abbrev pub All : (A → Type 0) → List A → Type 0
  All P [] = Unit {0}
  All P (a ∷ l) = P a × All P l

  -- Every state that a start passes has the property `P`, and the last, if the start does not end the
  -- process, has `Q`.
  abbrev pub Goes : (A → Type 0) → (A → Type 0) → Run A → Type 0
  Goes P Q r = All P r.passed × (r.failure ≡ none → Q r.last)

  pub assign-Goes :
      (P Q : A → Type 0) (set : A → A) (next : A → Run A) (a : A)
      → P (set a)
      → Goes P Q (next (set a))
      → Goes P Q (assign set next a)
  unfolding assign
  assign-Goes P Q set next a p g = ((p, g.0), g.1)

  pub attempt-Goes :
      (P Q : A → Type 0) (works : Bool) (f : Failure) (set : A → A) (next : A → Run A) (a : A)
      → P (set a)
      → Goes P Q (next (set a))
      → Goes P Q (attempt works f set next a)
  unfolding attempt assign
  attempt-Goes P Q true f set next a p g = ((p, g.0), g.1)
  attempt-Goes P Q false f set next a p g = (tt, λ h. absurd (ground arith))

-- What an application opens and closes.
pub data Service : Type 0 where
  http_server listener agents actors cluster mongobd mongo redis : Service

-- Which services call which others, by the code of the applications: handlers and probes call the
-- databases, the listener makes agents, agents call the actors' client and redis. Actors call the
-- cluster, the register in redis and the backend, and the client of actors calls agents with what it
-- receives. The cluster hands packets to actors. The backend calls mongo, and actors when it has saved.
abbrev pub calls : Service → Service → Bool
calls http_server mongo = true
calls http_server redis = true
calls listener agents = true
calls agents actors = true
calls agents redis = true
calls actors agents = true
calls actors cluster = true
calls actors mongobd = true
calls actors redis = true
calls cluster actors = true
calls mongobd mongo = true
calls mongobd actors = true
calls _ _ = false

-- What is closed later does not call what is closed.
abbrev pub AreQuiet : Service → List Service → Type 0
AreQuiet s [] = Unit {0}
AreQuiet s (x ∷ l) = (calls x s ≡ false) × AreQuiet s l

abbrev pub IsOrdered : List Service → Type 0
IsOrdered [] = Unit {0}
IsOrdered (s ∷ l) = AreQuiet s l × IsOrdered l

-- Each service that is closed while one closed later may still call it, with that one in front.
abbrev pub callers : Service → List Service → List (Service × Service)
callers s [] = []
callers s (x ∷ l) = let rest = callers s l in if calls x s then (x, s) ∷ rest else rest

abbrev pub late_calls : List Service → List (Service × Service)
late_calls [] = []
late_calls (s ∷ l) = callers s l ++ late_calls l

abbrev pub closed_if : Bool → Service → List Service → List Service
closed_if b s l = if b then s ∷ l else l
