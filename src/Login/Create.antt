-- ===== src/Login/Create.antt =====
-- What creating a character does to the database.
pub mod Limits
pub mod Outcome
use ggs.Prelude.{
  ℕ, suc, ◌<◌, ◌≤◌, ◌≡◌, ◌⊎◌, inl, inr, refl, sym, ap, ap₂, ◌∙◌, none, some, List, [], ◌∷◌, leb,
  if◌then◌else◌, Result, ok, err, Bool-cases, Option-cases, Result-cases, arith,
}
use mathlib.Core.Path.{subst}
use ggs.Prelude.Int.{ℤ, eqb_ℤ, eqb_ℤ-sound}
use ggs.Login.{
  ErrCode, ok_code, auth_failed, internal_error, server_unavailable, character_not_exist,
  character_count_limited, server_character_count_limited, Character, Services,
  check_server_available, check_server_count, check_create_character, store_character,
  create_character, refresh_and_create, check_and_create, lock_and_create, handle_character_create,
}

-- How many characters an account has, in all and on a server.
abbrev pub of_account : ℤ → List Character → ℕ
of_account a [] = 0
of_account a (c ∷ cs) = let n = of_account a cs in if eqb_ℤ c.account_id a then suc n else n

abbrev pub on_server : ℤ → ℤ → List Character → ℕ
on_server a s [] = 0
on_server a s (c ∷ cs) =
    let n = on_server a s cs in
    if eqb_ℤ c.account_id a then (if eqb_ℤ c.server_id s then suc n else n) else n

-- What the handler relies on. Only an insert changes the characters, counts are exact while the lock
-- is held, and an insert that fails may have been made.
pub record IsServices (v : Services) : Type 0 where
  pub get_server_keeps : (s : ℤ) (d : v.D) → v.characters (v.get_server s d).1 ≡ v.characters d
  pub lock_keeps : (a : ℤ) (d : v.D) → v.characters (v.lock_account a d).1 ≡ v.characters d
  pub refresh_keeps : (d : v.D) → v.characters (v.refresh_lock d).1 ≡ v.characters d
  pub unlock_keeps : (d : v.D) → v.characters (v.unlock d) ≡ v.characters d
  pub gen_keeps : (d : v.D) → v.characters (v.gen_character_id d).1 ≡ v.characters d
  pub set_keeps : (id s : ℤ) (d : v.D) → v.characters (v.set_actor_server id s d).1 ≡ v.characters d
  pub count_keeps : (a : ℤ) (d : v.D) → v.characters (v.count_by_account a d).1 ≡ v.characters d
  pub count_server_keeps :
      (a s : ℤ) (d : v.D) → v.characters (v.count_by_server a s d).1 ≡ v.characters d
  pub counts :
      (a : ℤ) (n : ℕ) (d : v.D)
      → (v.count_by_account a d).0 ≡ ok n
      → n ≡ of_account a (v.characters d)
  pub counts_server :
      (a s : ℤ) (n : ℕ) (d : v.D)
      → (v.count_by_server a s d).0 ≡ ok n
      → n ≡ on_server a s (v.characters d)
  pub inserts :
      (c : Character) (d : v.D)
      → (v.insert_character c d).0 ≡ none
      → v.characters (v.insert_character c d).1 ≡ c ∷ v.characters d
  pub inserts_or_not :
      (c : Character) (d : v.D)
      → (v.characters (v.insert_character c d).1 ≡ v.characters d)
        ⊎ (v.characters (v.insert_character c d).1 ≡ c ∷ v.characters d)

module _ (v : Services) (law : IsServices v) (a s : ℤ) where
  open v use {D}

  abbrev pub new_character : ℤ → Character
  new_character id = record { id = id; account_id = a; server_id = s; name = [] }

  -- What a part of the handler that started with the characters `cs` has done, when it answers `r`.
  pub data Created (cs : List Character) : Result ErrCode ℤ × D → Type 0 where
    refused : {e : ErrCode} {d : D} → v.characters d ≡ cs → Created cs (err e, d)
    failed :
        {id : ℤ} {d : D}
        → v.characters d ≡ new_character id ∷ cs
        → Created cs (err internal_error, d)
    created : {id : ℤ} {d : D} → v.characters d ≡ new_character id ∷ cs → Created cs (ok id, d)

  store_character-Created :
      (id : ℤ) (cs : List Character) (d : D)
      → v.characters d ≡ cs
      → Created cs (store_character v id a s d)
  unfolding store_character
  store_character-Created id cs d h =
      let c = new_character id in
      elim (Option-cases (v.insert_character c d).0) [
        | inl e ↦
            let grown =
              law.set_keeps id s (v.insert_character c d).1
              ∙ law.inserts c d e
              ∙ ap (λ l. c ∷ l) h in
            elim (Option-cases (v.set_actor_server id s (v.insert_character c d).1).0) [
              | inl f ↦ rw (e, f, store_character) (created grown)
              | inr (x, f) ↦ rw (e, f, store_character) (failed grown)
            ]
        | inr (x, e) ↦ elim (law.inserts_or_not c d) [
          | inl k ↦ rw (e, store_character) (refused (k ∙ h))
          | inr k ↦ rw (e, store_character) (failed (k ∙ ap (λ l. c ∷ l) h))
        ]
      ]

  pub create_character-Created :
      (cs : List Character) (d : D) → v.characters d ≡ cs → Created cs (create_character v a s d)
  unfolding create_character
  create_character-Created cs d h =
      let kept = law.gen_keeps d ∙ h in
      elim (Result-cases (v.gen_character_id d).0) [
        | inl (id, e) ↦
            rw (e, create_character) (store_character-Created id cs (v.gen_character_id d).1 kept)
        | inr (x, e) ↦ rw (e, create_character) (refused kept)
      ]

  refresh_and_create-Created :
      (cs : List Character) (d : D) → v.characters d ≡ cs → Created cs (refresh_and_create v a s d)
  unfolding refresh_and_create
  refresh_and_create-Created cs d h =
      let kept = law.refresh_keeps d ∙ h in
      elim (Option-cases (v.refresh_lock d).0) [
        | inl e ↦ rw (e, refresh_and_create) (create_character-Created cs (v.refresh_lock d).1 kept)
        | inr (x, e) ↦ rw (e, refresh_and_create) (refused kept)
      ]

  -- The check leaves the characters, and passes only below both limits.
  abbrev pub Room : List Character → Type 0
  Room cs = (of_account a cs < 2) × (on_server a s cs < 2)

  check_server_count_room :
      (cs : List Character) (d : D)
      → v.characters d ≡ cs
      → (check_server_count v a s d).0 ≡ none
      → on_server a s cs < 2
  unfolding check_server_count
  check_server_count_room cs d h p = elim (Result-cases (v.count_by_server a s d).0) [
    | inr (x, e) ↦ absurd (ground arith)
    | inl (n, e) ↦
        let exact = law.counts_server a s n d e ∙ ap (on_server a s) h in
        elim (Bool-cases (leb 2 n)) [ inl f ↦ absurd (ground arith) | inr f ↦ ground arith ]
  ]

  pub check_create_character_lem :
      (cs : List Character) (d : D)
      → v.characters d ≡ cs
      → (v.characters (check_create_character v a s d).1 ≡ cs)
        × (((e : ErrCode) × ((check_create_character v a s d).0 ≡ some e))
            ⊎ (((check_create_character v a s d).0 ≡ none) × Room cs))
  unfolding check_create_character check_server_count
  check_create_character_lem cs d h =
      let d' = (v.count_by_account a d).1 in
      let kept = law.count_keeps a d ∙ h in
      let kept' = law.count_server_keeps a s d' ∙ kept in
      elim (Result-cases (v.count_by_account a d).0) [
        | inr (x, e) ↦ rw (e, check_create_character) (kept, inl (internal_error, refl))
        | inl (n, e) ↦
            let exact = law.counts a n d e ∙ ap (of_account a) h in
            elim (Bool-cases (leb 2 n)) [
              | inl f ↦
                  rw (e, check_create_character, f) (kept, inl (character_count_limited, refl))
              | inr f ↦
                  rw (e, check_create_character, f)
                    (
                      kept',
                      elim (Option-cases (check_server_count v a s d').0) [
                        | inl g ↦ inr (g, (ground arith, check_server_count_room cs d' kept g))
                        | inr (x, g) ↦ inl (x, g)
                      ],
                    )
            ]
      ]

  -- What the whole handler has done. A character is only made where there is room for it.
  abbrev pub Handled : List Character → Result ErrCode ℤ × D → Type 0
  Handled cs r = Created cs r × (Room cs ⊎ (v.characters r.1 ≡ cs))

  check_and_create-Handled :
      (cs : List Character) (d : D) → v.characters d ≡ cs → Handled cs (check_and_create v a s d)
  unfolding check_and_create
  check_and_create-Handled cs d h =
      let (kept, c) = check_create_character_lem cs d h in
      elim c [
        | inl (x, e) ↦ rw (e, check_and_create) (refused kept, inr kept)
        | inr (e, room) ↦
            rw (e, check_and_create)
              (refresh_and_create-Created cs (check_create_character v a s d).1 kept, inl room)
      ]

  unlocked :
      (cs : List Character) (r : Result ErrCode ℤ × D)
      → Handled cs r
      → Handled cs (r.0, v.unlock r.1)
  unlocked cs (err e, d) (refused k, x) =
      (refused (law.unlock_keeps d ∙ k), inr (law.unlock_keeps d ∙ k))
  unlocked cs (err e, d) (failed k, inl x) = (failed (law.unlock_keeps d ∙ k), inl x)
  unlocked cs (err e, d) (failed k, inr x) =
      (failed (law.unlock_keeps d ∙ k), inr (law.unlock_keeps d ∙ x))
  unlocked cs (ok id, d) (created k, inl x) = (created (law.unlock_keeps d ∙ k), inl x)
  unlocked cs (ok id, d) (created k, inr x) =
      (created (law.unlock_keeps d ∙ k), inr (law.unlock_keeps d ∙ x))

  lock_and_create-Handled :
      (cs : List Character) (d : D) → v.characters d ≡ cs → Handled cs (lock_and_create v a s d)
  unfolding lock_and_create
  lock_and_create-Handled cs d h =
      let kept = law.lock_keeps a d ∙ h in
      let d' = (v.lock_account a d).1 in
      elim (Option-cases (v.lock_account a d).0) [
        | inl e ↦
            rw (e, lock_and_create)
              (unlocked cs (check_and_create v a s d') (check_and_create-Handled cs d' kept))
        | inr (x, e) ↦ rw (e, lock_and_create) (refused kept, inr kept)
      ]

  pub handle-Handled : (d : D) → Handled (v.characters d) (handle_character_create v a s d)
  unfolding handle_character_create check_server_available
  handle-Handled d =
      let kept = law.get_server_keeps s d in
      elim (Option-cases (check_server_available v s d).0) [
        | inl e ↦
            rw (e, handle_character_create)
              (lock_and_create-Handled (v.characters d) (v.get_server s d).1 kept)
        | inr (x, e) ↦ rw (e, handle_character_create) (refused kept, inr kept)
      ]
