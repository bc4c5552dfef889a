-- ===== src/Login/Lease/Late.antt =====
-- A lock with a deadline, and what happens when a character is stored after it.
use ggs.Prelude.{ℕ, ◌+◌, ◌≤◌, ◌<◌, ◌≡◌, refl, Option, none, some, arith, ltb, if◌then◌else◌, ◌==◌}
use ggs.Prelude.Int.{ℤ, pos}
use ggs.Login.{check_create_character, check_server_count, create_character, store_character}
use ggs.Login.Create.{of_account}
use ggs.Login.Small.{sample_services, sample_database}
use ggs.Login.Lease.{
  lock_expiry, Lock, IsLock, waits, System, Steps, time_passes, asks, locks, checks, refreshes,
  creates, none_yet, then_step,
}

-- The request that has the lock, and until when.
abbrev pub lease_holder : ℕ → Option (ℕ × ℕ) → Option ℕ
lease_holder t none = none
lease_holder t (some (i, e)) = if ltb t e then some i else none

abbrev pub lease_refresh : ℕ → ℕ → Option ℕ → Option (Option (ℕ × ℕ))
lease_refresh i t none = none
lease_refresh i t (some j) = if i == j then some (some (i, t + lock_expiry)) else none

abbrev pub lease_lock : ℕ → ℕ → Option ℕ → Option (Option (ℕ × ℕ))
lease_lock i t none = some (some (i, t + lock_expiry))
lease_lock i t (some j) = none

abbrev pub lease_unlock : ℕ → Option (ℕ × ℕ) → Option (ℕ × ℕ)
lease_unlock i none = none
lease_unlock i (some (j, e)) = if i == j then none else some (j, e)

abbrev pub lease : Lock
lease = record {
  L = Option (ℕ × ℕ);
  lock = λ i t l. lease_lock i t (lease_holder t l);
  refresh = λ i t l. lease_refresh i t (lease_holder t l);
  unlock = lease_unlock;
  holder = lease_holder;
}

lease_lock_cases :
    (i t : ℕ) (o : Option ℕ) (l' : Option (ℕ × ℕ))
    → lease_lock i t o ≡ some l'
    → (o ≡ none) × (l' ≡ some (i, t + lock_expiry))
lease_lock_cases i t none l' h = (refl, ground arith)
lease_lock_cases i t (some j) l' h = absurd (ground arith)

lease_refresh_cases :
    (i t : ℕ) (o : Option ℕ) (l' : Option (ℕ × ℕ))
    → lease_refresh i t o ≡ some l'
    → (o ≡ some i) × (l' ≡ some (i, t + lock_expiry))
lease_refresh_cases i t none l' h = absurd (ground arith)
lease_refresh_cases i t (some j) l' h = (ground arith, ground arith)

lease_kept :
    (i j u : ℕ) (l : Option (ℕ × ℕ))
    → lease_holder u l ≡ some j
    → (i ≡ j → ⊥)
    → lease_holder u (lease_unlock i l) ≡ some j
lease_kept i j u none h n = h
lease_kept i j u (some (x, e)) h n = ground arith

lease_unlocked :
    (i j u : ℕ) (l : Option (ℕ × ℕ))
    → lease_holder u (lease_unlock i l) ≡ some j
    → lease_holder u l ≡ some j
lease_unlocked i j u none h = h
lease_unlocked i j u (some (x, e)) h = ground arith

lease_earlier :
    (j t u : ℕ) (l : Option (ℕ × ℕ)) → lease_holder u l ≡ some j → t ≤ u → lease_holder t l ≡ some j
lease_earlier j t u none h p = absurd (ground arith)
lease_earlier j t u (some (x, e)) h p = ground arith

pub lease-IsLock : IsLock lease
lease-IsLock = record {
  free = λ i t l l' h. (lease_lock_cases i t (lease_holder t l) l' h).0;
  granted = λ i t u l l' h p q. ground (arith, (lease_lock_cases i t (lease_holder t l) l' h).1);
  grant_ends = λ i t u l l' h p. ground (arith, (lease_lock_cases i t (lease_holder t l) l' h).1);
  own = λ i t l l' h. (lease_refresh_cases i t (lease_holder t l) l' h).0;
  refreshed =
      λ i t u l l' h p q. ground (arith, (lease_refresh_cases i t (lease_holder t l) l' h).1);
  refresh_ends =
      λ i t u l l' h p. ground (arith, (lease_refresh_cases i t (lease_holder t l) l' h).1);
  kept = lease_kept;
  unlocked = lease_unlocked;
  earlier = lease_earlier;
}

abbrev pub server_one : ℕ → ℤ
server_one i = pos 101

-- Nobody has called, and the account has one character.
abbrev pub start : (bound : ℕ) → System sample_services lease (pos 7) server_one bound
start bound = record { now = 0; lock = none; db = sample_database; stage = λ i. waits }

-- When a character may be stored later than the expiry after the refresh, two requests can leave an
-- account with three characters: the one that holds the lock no more stores after the other.
pub late_exceeds :
    (bound : ℕ)
    → lock_expiry < bound
    → (x : System sample_services lease (pos 7) server_one bound) × Steps sample_services lease
        (pos 7)
        server_one
        bound
        (start bound)
        x
      × (of_account (pos 7) x.db.0 ≡ 3)
unfolding check_create_character check_server_count create_character store_character
late_exceeds bound h =
    let after_refresh =
      then_step
        (then_step
          (then_step (then_step none_yet (asks (start bound) 0 refl))
            (locks _ 0 0 (some (0, 10000)) refl (omega arith) refl))
          (checks _ 0 refl refl))
        (refreshes _ 0 (some (0, 10000)) refl refl) in
    let other =
      then_step
        (then_step
          (then_step (then_step (then_step after_refresh (time_passes _ 10000)) (asks _ 1 refl))
            (locks _ 1 10000 (some (1, 20000)) refl (omega arith) refl))
          (checks _ 1 refl refl))
        (refreshes _ 1 (some (1, 20000)) refl refl) in
    (
      _,
      then_step (then_step other (creates _ 1 10000 refl (omega arith)))
          (creates _ 0 0 refl (omega arith)),
      refl,
    )
