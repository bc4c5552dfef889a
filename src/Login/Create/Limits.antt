-- ===== src/Login/Create/Limits.antt =====
-- The limits on the number of characters that creating one keeps.
use ggs.Prelude.{
  ◌≤◌, ◌≡◌, ◌⊎◌, inl, inr, sym, ap, ap₂, List, ◌∷◌, Result, ok, err, Bool-cases, arith,
}
use mathlib.Core.Path.{subst}
use ggs.Prelude.Int.{ℤ, eqb_ℤ, eqb_ℤ-sound}
use ggs.Login.{ErrCode, Character, Services, handle_character_create}
use ggs.Login.Create.{
  of_account, on_server, IsServices, new_character, refused, failed, created, Room, Handled,
  handle-Handled,
}

module _ (v : Services) (law : IsServices v) (a s : ℤ) where
  open v use {D}

  grows :
      (cs : List Character) (r : Result ErrCode ℤ × D)
      → Handled v law a s cs r
      → (v.characters r.1 ≡ cs)
        ⊎ (Room v law a s cs × (id : ℤ) × (v.characters r.1 ≡ new_character v law a s id ∷ cs))
  grows cs r (c, inr k) = inl k
  grows cs (err e, d) (refused k, inl x) = inl k
  grows cs (err e, d) (failed {id = id} k, inl x) = inr (x, id, k)
  grows cs (ok id, d) (created k, inl x) = inr (x, id, k)

  pub one_more :
      (a' s' id : ℤ) (cs : List Character)
      → Room v law a s cs
      → of_account a' cs ≤ 2
      → on_server a' s' cs ≤ 2
      → (of_account a' (new_character v law a s id ∷ cs) ≤ 2)
        × (on_server a' s' (new_character v law a s id ∷ cs) ≤ 2)
  one_more a' s' id cs (x, y) p q = elim (Bool-cases (eqb_ℤ a a')) [
    | inr e ↦ (ground arith, ground arith)
    | inl e ↦
        let same = eqb_ℤ-sound a a' e in
        elim (Bool-cases (eqb_ℤ s s')) [
          | inr f ↦ (ground (arith, ap (λ i. of_account i cs) same), ground arith)
          | inl f ↦ (
            ground (arith, ap (λ i. of_account i cs) same),
            ground (arith, ap₂ (λ i j. on_server i j cs) same (eqb_ℤ-sound s s' f)),
          )
        ]
  ]

  -- Creating a character, whatever fails on the way, keeps every account at two characters at most,
  -- and at two at most on each server.
  create_limits :
      (d : D) (a' s' : ℤ)
      → of_account a' (v.characters d) ≤ 2
      → on_server a' s' (v.characters d) ≤ 2
      → let after = v.characters (handle_character_create v a s d).1 in
        (of_account a' after ≤ 2) × (on_server a' s' after ≤ 2)
  create_limits d a' s' p q =
      let r = handle_character_create v a s d in
      elim (grows (v.characters d) r (handle-Handled v law a s d)) [
        | inl k ↦ (
          subst (λ l. of_account a' l ≤ 2) (sym k) p,
          subst (λ l. on_server a' s' l ≤ 2) (sym k) q,
        )
        | inr (room, id, k) ↦
            let (x, y) = one_more a' s' id (v.characters d) room p q in
            (
              subst (λ l. of_account a' l ≤ 2) (sym k) x,
              subst (λ l. on_server a' s' l ≤ 2) (sym k) y,
            )
      ]
