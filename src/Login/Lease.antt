-- ===== src/Login/Lease.antt =====
-- Requests that create characters of one account at the same time, under its lock
-- (app/login/internal/handlers/character.go).
--
-- The lock is a library's, with an expiry: a parameter, of which `IsLock` states what is relied on.
-- Times are milliseconds. A request is at a stage between its calls, and any request may go on, or
-- time pass, in any order. The check is one step, and so are the calls that store a character.
pub mod Guards
pub mod Limits
pub mod Late
mod Samples
use ggs.Prelude.{
  ℕ, ◌+◌, ◌*◌, ◌≤◌, ◌<◌, ◌≡◌, Option, none, some, if◌then◌else◌, ◌==◌, Result, ok, err,
}
use ggs.Prelude.Int.{ℤ}
use ggs.Login.{Services, check_create_character, create_character}

-- `lockAccountCharacters` asks for this expiry; a call of a service ends after `DefaultTimeout`.
abbrev pub lock_expiry : ℕ
lock_expiry = 10000

abbrev pub default_timeout : ℕ
default_timeout = 5000

-- `Lock`, `Refresh` and `Unlock` of a request at a time, and who holds the lock at a time, if no
-- further call is made.
pub record Lock : Type 1 where
  pub L : Type 0
  pub lock : ℕ → ℕ → L → Option L
  pub refresh : ℕ → ℕ → L → Option L
  pub unlock : ℕ → L → L
  pub holder : ℕ → L → Option ℕ

-- It is granted when nobody holds it, and to one who holds it anew, for the expiry; it is lost by
-- unlocking, or when the time is over.
pub record IsLock (k : Lock) : Type 0 where
  pub free : (i t : ℕ) (l l' : k.L) → k.lock i t l ≡ some l' → k.holder t l ≡ none
  pub granted :
      (i t u : ℕ) (l l' : k.L)
      → k.lock i t l ≡ some l'
      → t ≤ u
      → u < t + lock_expiry
      → k.holder u l' ≡ some i
  pub grant_ends :
      (i t u : ℕ) (l l' : k.L) → k.lock i t l ≡ some l' → t + lock_expiry ≤ u → k.holder u l' ≡ none
  pub own : (i t : ℕ) (l l' : k.L) → k.refresh i t l ≡ some l' → k.holder t l ≡ some i
  pub refreshed :
      (i t u : ℕ) (l l' : k.L)
      → k.refresh i t l ≡ some l'
      → t ≤ u
      → u < t + lock_expiry
      → k.holder u l' ≡ some i
  pub refresh_ends :
      (i t u : ℕ) (l l' : k.L)
      → k.refresh i t l ≡ some l'
      → t + lock_expiry ≤ u
      → k.holder u l' ≡ none
  pub kept :
      (i j u : ℕ) (l : k.L)
      → k.holder u l ≡ some j
      → (i ≡ j → ⊥)
      → k.holder u (k.unlock i l) ≡ some j
  pub unlocked : (i j u : ℕ) (l : k.L) → k.holder u (k.unlock i l) ≡ some j → k.holder u l ≡ some j
  pub earlier : (j t u : ℕ) (l : k.L) → k.holder u l ≡ some j → t ≤ u → k.holder t l ≡ some j

-- Where a request stands in `handleCharacterCreate`: before it asks for the lock, in the call of `Lock` that
-- began at a time, with the lock, behind the
-- check, behind the refresh that took effect at a time, before unlocking, and at its end.
pub data Stage : Type 0 where
  waits has_lock has_checked : Stage
  locking : ℕ → Stage
  has_refreshed : ℕ → Stage
  will_unlock has_ended : Stage

abbrev pub put : ℕ → Stage → (ℕ → Stage) → ℕ → Stage
put i s f j = if i == j then s else f j

-- Account `a`; request `i` wants a character on the server `wants i`. A character is stored at most
-- `bound` after the refresh took effect.
module _ (v : Services) (k : Lock) (a : ℤ) (wants : ℕ → ℤ) (bound : ℕ) where
  open v use {D}
  open k use {L}

  pub record System : Type 0 where
    pub now : ℕ
    pub lock : L
    pub db : D
    pub stage : ℕ → Stage

  abbrev pub go : ℕ → Stage → System → System
  go i s w = record w { stage = put i s w.stage }

  pub data Step : System → System → Type 0 where
    time_passes : (w : System) (n : ℕ) → Step w (record w { now = w.now + n })
    asks : (w : System) (i : ℕ) → w.stage i ≡ waits → Step w (go i (locking w.now) w)
    locks :
        (w : System) (i t : ℕ) (l : L)
        → w.stage i ≡ locking t
        → w.now ≤ t + default_timeout
        → k.lock i w.now w.lock ≡ some l
        → Step w (go i has_lock (record w { lock = l }))
    gives_up : (w : System) (i : ℕ) → w.stage i ≡ waits → Step w (go i has_ended w)
    fails_lock : (w : System) (i t : ℕ) → w.stage i ≡ locking t → Step w (go i has_ended w)
    checks :
        (w : System) (i : ℕ)
        → w.stage i ≡ has_lock
        → (check_create_character v a (wants i) w.db).0 ≡ none
        → Step w
            (go i has_checked (record w { db = (check_create_character v a (wants i) w.db).1 }))
    is_refused :
        (w : System) (i : ℕ)
        → w.stage i ≡ has_lock
        → Step w
            (go i will_unlock (record w { db = (check_create_character v a (wants i) w.db).1 }))
    refreshes :
        (w : System) (i : ℕ) (l : L)
        → w.stage i ≡ has_checked
        → k.refresh i w.now w.lock ≡ some l
        → Step w (go i (has_refreshed w.now) (record w { lock = l }))
    loses_lock : (w : System) (i : ℕ) → w.stage i ≡ has_checked → Step w (go i will_unlock w)
    creates :
        (w : System) (i t : ℕ)
        → w.stage i ≡ has_refreshed t
        → w.now < t + bound
        → Step w (go i will_unlock (record w { db = (create_character v a (wants i) w.db).1 }))
    stores_nothing :
        (w : System) (i t : ℕ) → w.stage i ≡ has_refreshed t → Step w (go i will_unlock w)
    unlocks :
        (w : System) (i : ℕ)
        → w.stage i ≡ will_unlock
        → Step w (go i has_ended (record w { lock = k.unlock i w.lock }))

  pub data Steps : System → System → Type 0 where
    none_yet : {w : System} → Steps w w
    then_step : {w x y : System} → Steps w x → Step x y → Steps w y
