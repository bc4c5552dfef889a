-- ===== src/Login/Lease/Limits.antt =====
-- The limits that the requests of one account keep, whatever their order.
use mathlib.Core.Path.{subst}
use ggs.Prelude.{ℕ, ◌≤◌, ◌≡◌, refl, sym, List, Result, ok, err}
use ggs.Prelude.Int.{ℤ}
use ggs.Login.{Services, ErrCode, Character, create_character}
use ggs.Login.Create.{
  of_account, on_server, IsServices, Room, refused, failed, created, Created,
  create_character-Created,
}
use ggs.Login.Create.Limits.{one_more}
use ggs.Login.Lease.{
  lock_expiry, Lock, IsLock, waits, Step, Steps, time_passes, locks, asks, fails_lock,
  stores_nothing, gives_up, checks, is_refused, refreshes, loses_lock, creates, unlocks, none_yet,
  then_step,
}
use ggs.Login.Lease.Guards.{
  Requests, Guards, IsGuarded, checked_keeps, guarded-Room, Step-IsGuarded,
}

module _ (v : Services) (law : IsServices v) (k : Lock) (a : ℤ) (wants : ℕ → ℤ) (bound : ℕ) where
  -- The account is within both limits.
  abbrev pub IsWithin : List Character → Type 0
  IsWithin cs = (s : ℤ) → (of_account a cs ≤ 2) × (on_server a s cs ≤ 2)

  Created-IsWithin :
      (s : ℤ) (cs : List Character) (r : Result ErrCode ℤ × v.D)
      → Room v law a s cs
      → Created v law a s cs r
      → IsWithin cs
      → IsWithin (v.characters r.1)
  Created-IsWithin s cs (err e, d) room (refused h) w = subst IsWithin (sym h) w
  Created-IsWithin s cs (err e, d) room (failed {id = id} h) w =
      subst IsWithin (sym h) (λ s'. one_more v law a s a s' id cs room (w s').0 (w s').1)
  Created-IsWithin s cs (ok id, d) room (created h) w =
      subst IsWithin (sym h) (λ s'. one_more v law a s a s' id cs room (w s').0 (w s').1)

  Step-IsWithin :
      {w x : Requests v law k a wants bound}
      → Step v k a wants bound w x
      → IsGuarded v law k a wants bound w
      → IsWithin (v.characters w.db)
      → IsWithin (v.characters x.db)
  Step-IsWithin (time_passes w n) g h = h
  Step-IsWithin (asks w i e) g h = h
  Step-IsWithin (locks w i t l e o f) g h = h
  Step-IsWithin (fails_lock w i t e) g h = h
  Step-IsWithin (stores_nothing w i t e) g h = h
  Step-IsWithin (gives_up w i e) g h = h
  Step-IsWithin (checks w i e f) g h =
      subst IsWithin (sym (checked_keeps v law k a wants bound i w)) h
  Step-IsWithin (is_refused w i e) g h =
      subst IsWithin (sym (checked_keeps v law k a wants bound i w)) h
  Step-IsWithin (refreshes w i l e f) g h = h
  Step-IsWithin (loses_lock w i e) g h = h
  Step-IsWithin (creates w i t e p) g h =
      Created-IsWithin (wants i) (v.characters w.db) (create_character v a (wants i) w.db)
        (guarded-Room v law k a wants bound w i t e p g).1
        (create_character-Created v law a (wants i) (v.characters w.db) w.db refl) h
  Step-IsWithin (unlocks w i e) g h = h

  Steps-IsWithin :
      IsLock k
      → bound ≤ lock_expiry
      → {w x : Requests v law k a wants bound} → Steps v k a wants bound w x
      → IsGuarded v law k a wants bound w × IsWithin (v.characters w.db)
      → IsGuarded v law k a wants bound x × IsWithin (v.characters x.db)
  Steps-IsWithin lk fits none_yet h = h
  Steps-IsWithin lk fits (then_step r st) h =
      let (g, within) = Steps-IsWithin lk fits r h in
      (Step-IsGuarded v law k a wants bound lk fits st g, Step-IsWithin st g within)

  -- However many requests of one account come, and in whatever order they go on, expire or fail: when
  -- a character is stored at most ten seconds after the refresh of the lock took effect, the account
  -- stays at two characters at most, and at two at most on each server.
  pub Steps-limits :
      IsLock k
      → bound ≤ lock_expiry
      → (w x : Requests v law k a wants bound) → ((i : ℕ) → w.stage i ≡ waits)
      → ((s : ℤ) → (of_account a (v.characters w.db) ≤ 2) × (on_server a s (v.characters w.db) ≤ 2))
      → Steps v k a wants bound w x
      → (s : ℤ) → (of_account a (v.characters x.db) ≤ 2) × (on_server a s (v.characters x.db) ≤ 2)
  Steps-limits lk fits w x start h r =
      (Steps-IsWithin lk fits r (
        (λ i.
            subst (Guards v law k a wants bound i w.now w.lock (v.characters w.db)) (sym (start i))
              tt),
        h,
      )).1
