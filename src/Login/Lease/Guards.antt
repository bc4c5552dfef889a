-- ===== src/Login/Lease/Guards.antt =====
-- What the lock guarantees to a request at each stage, whatever the order of the requests.
use mathlib.Core.Path.{subst}
use ggs.Prelude.{
  ℕ, ◌+◌, ◌≤◌, ◌<◌, ◌≡◌, refl, sym, Option, none, some, List, inl, inr, arith, ◌==◌, ==_iff,
  if_elim, ltb, ltb→lt, Bool-cases,
}
use ggs.Prelude.Int.{ℤ}
use ggs.Login.{Services, Character, check_create_character, create_character}
use ggs.Login.Create.{IsServices, Room, check_create_character_lem}
use ggs.Login.Lease.{
  lock_expiry, Lock, IsLock, Stage, waits, has_lock, has_checked, has_refreshed, will_unlock,
  has_ended, put, System, Step, time_passes, locks, asks, fails_lock, stores_nothing, locking,
  gives_up, checks, is_refused, refreshes, loses_lock, creates, unlocks,
}

module _ (v : Services) (law : IsServices v) (k : Lock) (a : ℤ) (wants : ℕ → ℤ) (bound : ℕ) where
  abbrev pub Requests : Type 0
  Requests = System v k a wants bound

  -- What the stage of request `i` says at a time: behind the check there is room while it has the lock;
  -- behind the refresh it has the lock, and there is room, as long as it may store.
  abbrev pub Guards : ℕ → ℕ → k.L → List Character → Stage → Type 0
  Guards i now l cs has_checked =
      (u : ℕ) → now ≤ u → k.holder u l ≡ some i → Room v law a (wants i) cs
  Guards i now l cs (has_refreshed t) =
      (u : ℕ) → now ≤ u → u < t + bound → (k.holder u l ≡ some i) × Room v law a (wants i) cs
  Guards i now l cs _ = Unit {0}

  abbrev pub IsGuarded : Requests → Type 0
  IsGuarded w = (i : ℕ) → Guards i w.now w.lock (v.characters w.db) (w.stage i)

  put_cases :
      (P : ℕ → Stage → Type 0) (i : ℕ) (s : Stage) (f : ℕ → Stage)
      → P i s
      → ((j : ℕ) → (i ≡ j → ⊥) → P j (f j))
      → (j : ℕ) → P j (put i s f j)
  put_cases P i s f p q j =
      if_elim (P j) (i == j) (λ e. subst (λ x. P x s) ((==_iff i j).0 e) p)
        (λ e. q j (λ h. absurd (ground arith)))

  later :
      (i now n : ℕ) (l : k.L) (cs : List Character) (s : Stage)
      → Guards i now l cs s
      → Guards i (now + n) l cs s
  later i now n l cs waits g = tt
  later i now n l cs has_lock g = tt
  later i now n l cs (locking t) g = tt
  later i now n l cs has_checked g = λ u h. g u (omega arith)
  later i now n l cs (has_refreshed t) g = λ u h. g u (omega arith)
  later i now n l cs will_unlock g = tt
  later i now n l cs has_ended g = tt

  -- One who does not have the lock now, nor will, is not behind a refresh that counts.
  excluded :
      (j now : ℕ) (l l' : k.L) (cs cs' : List Character) (s : Stage)
      → (k.holder now l ≡ some j → ⊥)
      → ((u : ℕ) → now ≤ u → k.holder u l' ≡ some j → ⊥)
      → Guards j now l cs s
      → Guards j now l' cs' s
  excluded j now l l' cs cs' waits x y g = tt
  excluded j now l l' cs cs' has_lock x y g = tt
  excluded j now l l' cs cs' (locking t) x y g = tt
  excluded j now l l' cs cs' has_checked x y g = λ u h e. absurd (y u h e)
  excluded j now l l' cs cs' (has_refreshed t) x y g =
      λ u h h'. absurd (x (g now (omega arith) (omega arith)).0)
  excluded j now l l' cs cs' will_unlock x y g = tt
  excluded j now l l' cs cs' has_ended x y g = tt

  given_back :
      (i j now : ℕ) (l : k.L) (cs : List Character) (s : Stage)
      → IsLock k
      → (i ≡ j → ⊥)
      → Guards j now l cs s
      → Guards j now (k.unlock i l) cs s
  given_back i j now l cs waits lk x g = tt
  given_back i j now l cs has_lock lk x g = tt
  given_back i j now l cs (locking t) lk x g = tt
  given_back i j now l cs has_checked lk x g = λ u h e. g u h (lk.unlocked i j u l e)
  given_back i j now l cs (has_refreshed t) lk x g =
      λ u h h'. (lk.kept i j u l (g u h h').0 x, (g u h h').1)
  given_back i j now l cs will_unlock lk x g = tt
  given_back i j now l cs has_ended lk x g = tt

  another : (o : Option ℕ) (i j : ℕ) → o ≡ some i → o ≡ some j → i ≡ j
  another o i j e f = ground arith

  nobody : (o : Option ℕ) (j : ℕ) → o ≡ none → o ≡ some j → ⊥
  nobody o j e f = absurd (ground arith)

  -- With the lock granted to `i` from `t` on, nobody else has it.
  granted_only :
      (i j t u : ℕ) (l : k.L)
      → ((u : ℕ) → t ≤ u → u < t + lock_expiry → k.holder u l ≡ some i)
      → ((u : ℕ) → t + lock_expiry ≤ u → k.holder u l ≡ none)
      → (i ≡ j → ⊥)
      → t ≤ u
      → k.holder u l ≡ some j
      → ⊥
  granted_only i j t u l x y n h e = elim (Bool-cases (ltb u (t + lock_expiry))) [
    | inl b ↦ n (another (k.holder u l) i j (x u h (ltb→lt u (t + lock_expiry) b)) e)
    | inr b ↦ nobody (k.holder u l) j (y u (ground arith)) e
  ]

  same_characters :
      (i now : ℕ) (l : k.L) (cs cs' : List Character) (s : Stage)
      → cs' ≡ cs
      → Guards i now l cs s
      → Guards i now l cs' s
  same_characters i now l cs cs' s e = subst (λ x. Guards i now l x s) (sym e)

  pub checked_keeps :
      (i : ℕ) (w : Requests)
      → v.characters (check_create_character v a (wants i) w.db).1 ≡ v.characters w.db
  checked_keeps i w = (check_create_character_lem v law a (wants i) (v.characters w.db) w.db refl).0

  checked-Room :
      (i : ℕ) (w : Requests)
      → (check_create_character v a (wants i) w.db).0 ≡ none
      → Room v law a (wants i) (v.characters w.db)
  checked-Room i w e =
      elim (check_create_character_lem v law a (wants i) (v.characters w.db) w.db refl).1 [
        | inl (x, f) ↦ absurd (ground arith)
        | inr (f, r) ↦ r
      ]

  pub guarded-Room :
      (w : Requests) (i t : ℕ)
      → w.stage i ≡ has_refreshed t
      → w.now < t + bound
      → IsGuarded w
      → (k.holder w.now w.lock ≡ some i) × Room v law a (wants i) (v.characters w.db)
  guarded-Room w i t e h g =
      subst (Guards i w.now w.lock (v.characters w.db)) e (g i) w.now (omega arith) h

  -- Every step keeps what the stages say.
  pub Step-IsGuarded :
      IsLock k
      → bound ≤ lock_expiry
      → {w x : Requests} → Step v k a wants bound w x
      → IsGuarded w
      → IsGuarded x
  Step-IsGuarded lk fits (time_passes w n) g =
      λ j. later j w.now n w.lock (v.characters w.db) (w.stage j) (g j)
  Step-IsGuarded lk fits (locks w i t l e o f) g =
      put_cases (λ j s. Guards j w.now l (v.characters w.db) s) i has_lock w.stage tt
        (λ j n.
          excluded j w.now w.lock l (v.characters w.db) (v.characters w.db) (w.stage j)
            (nobody (k.holder w.now w.lock) j (lk.free i w.now w.lock l f))
            (λ u h.
              granted_only i j w.now u l (λ u'. lk.granted i w.now u' w.lock l f)
                (λ u'. lk.grant_ends i w.now u' w.lock l f) n h)
            (g j))
  Step-IsGuarded lk fits (gives_up w i e) g =
      put_cases (λ j s. Guards j w.now w.lock (v.characters w.db) s) i has_ended w.stage tt
        (λ j n. g j)
  Step-IsGuarded lk fits (fails_lock w i t e) g =
      put_cases (λ j s. Guards j w.now w.lock (v.characters w.db) s) i has_ended w.stage tt
        (λ j n. g j)
  Step-IsGuarded lk fits (asks w i e) g =
      put_cases (λ j s. Guards j w.now w.lock (v.characters w.db) s) i (locking w.now) w.stage tt
        (λ j n. g j)
  Step-IsGuarded lk fits (stores_nothing w i t e) g =
      put_cases (λ j s. Guards j w.now w.lock (v.characters w.db) s) i will_unlock w.stage tt
        (λ j n. g j)
  Step-IsGuarded lk fits (checks w i e f) g = λ j.
      same_characters j w.now w.lock (v.characters w.db) _ (put i has_checked w.stage j)
        (checked_keeps i w)
        (put_cases (λ j s. Guards j w.now w.lock (v.characters w.db) s) i has_checked w.stage
          (λ u h p. checked-Room i w f) (λ j n. g j) j)
  Step-IsGuarded lk fits (is_refused w i e) g = λ j.
      same_characters j w.now w.lock (v.characters w.db) _ (put i will_unlock w.stage j)
        (checked_keeps i w)
        (put_cases (λ j s. Guards j w.now w.lock (v.characters w.db) s) i will_unlock w.stage tt
          (λ j n. g j) j)
  Step-IsGuarded lk fits (refreshes w i l e f) g =
      let mine = subst (Guards i w.now w.lock (v.characters w.db)) e (g i) in
      let held = lk.own i w.now w.lock l f in
      put_cases (λ j s. Guards j w.now l (v.characters w.db) s) i (has_refreshed w.now) w.stage
        (λ u h h'.
          (lk.refreshed i w.now u w.lock l f h (omega arith), mine w.now (omega arith) held))
        (λ j n.
          excluded j w.now w.lock l (v.characters w.db) (v.characters w.db) (w.stage j)
            (λ x. n (another (k.holder w.now w.lock) i j held x))
            (λ u h.
              granted_only i j w.now u l (λ u'. lk.refreshed i w.now u' w.lock l f)
                (λ u'. lk.refresh_ends i w.now u' w.lock l f) n h)
            (g j))
  Step-IsGuarded lk fits (loses_lock w i e) g =
      put_cases (λ j s. Guards j w.now w.lock (v.characters w.db) s) i will_unlock w.stage tt
        (λ j n. g j)
  Step-IsGuarded lk fits (creates w i t e h) g =
      let cs = v.characters (create_character v a (wants i) w.db).1 in
      let held = (guarded-Room w i t e h g).0 in
      put_cases (λ j s. Guards j w.now w.lock cs s) i will_unlock w.stage tt
        (λ j n.
          excluded j w.now w.lock w.lock (v.characters w.db) cs (w.stage j)
            (λ x. n (another (k.holder w.now w.lock) i j held x))
            (λ u q x.
              n (another (k.holder w.now w.lock) i j held (lk.earlier j w.now u w.lock x q)))
            (g j))
  Step-IsGuarded lk fits (unlocks w i e) g =
      put_cases (λ j s. Guards j w.now (k.unlock i w.lock) (v.characters w.db) s) i has_ended
        w.stage tt (λ j n. given_back i j w.now w.lock (v.characters w.db) (w.stage j) lk n (g j))
