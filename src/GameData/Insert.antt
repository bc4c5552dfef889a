-- ===== src/GameData/Insert.antt =====
-- The place at which a function that runs after loading is inserted: behind those of no higher
-- priority.
use ggs.Prelude.{
  ℕ, zero, suc, ◌+◌, ◌-◌, ◌/◌, ◌≤◌, ◌<◌, ◌≡◌, refl, ap, ◌∙◌, Bool, true, false, some, List, [], ◌∷◌,
  ◌++◌, ltb, length, get_or, if◌then◌else◌, arith, append-nil, append_assoc, Bool-cases, inl, inr,
}
use ggs.Prelude.Int.{ℤ, ◌≤ℤ◌, ltb_ℤ, eqb_ℤ}
use ggs.Prelude.Map.{string_eq}
use ggs.GameData.{search_from, search, insert_at, runs_after, AfterLoadFuncInfo}

-- `f` is false below `r` and true from there to `n`.
abbrev pub Splits : (ℕ → Bool) → ℕ → ℕ → Type 0
Splits f n r = (r ≤ n) × ((k : ℕ) → k < r → f k ≡ false) × ((k : ℕ) → r ≤ k → k < n → f k ≡ true)

module _ (f : ℕ → Bool) (n : ℕ) (grows : (k m : ℕ) → k ≤ m → m < n → f k ≡ true → f m ≡ true) where
  falls : (k m : ℕ) → k ≤ m → m < n → f m ≡ false → f k ≡ false
  falls k m h l e = elim (Bool-cases (f k)) [
    | inl t ↦ absurd (grind (arith, grows k m h l t))
    | inr t ↦ t
  ]

  search_from-Splits :
      (rounds i j : ℕ)
      → j - i < rounds
      → i ≤ j
      → j ≤ n
      → ((k : ℕ) → k < i → f k ≡ false)
      → ((k : ℕ) → j ≤ k → k < n → f k ≡ true)
      → (r : ℕ) × (search_from f rounds i j ≡ some r) × Splits f n r
  unfolding search_from
  search_from-Splits zero i j w le top lo hi = absurd (omega arith)
  search_from-Splits (suc rounds) i j w le top lo hi = elim (Bool-cases (ltb i j)) [
    | inr e ↦ rw e (i, refl, (omega arith, lo, λ k a. hi k (ground arith)))
    | inl e ↦ elim (Bool-cases (f ((i + j) / 2))) [
      | inl t ↦
          rw (e, t)
            (search_from-Splits rounds i ((i + j) / 2) (ground arith) (ground arith) (ground arith)
              lo (λ k a b. grows _ k a b t))
      | inr t ↦
          rw (e, t)
            (search_from-Splits rounds (suc ((i + j) / 2)) j (ground arith) (ground arith) top
              (λ k a. falls k _ (omega arith) (ground arith) t) hi)
    ]
  ]

  -- A search for the first place where a test that stays true holds ends, and finds it.
  pub search-Splits : (r : ℕ) × (search n f ≡ some r) × Splits f n r
  search-Splits =
      search_from-Splits (suc n) 0 n (omega arith) (omega arith) (omega arith)
        (λ k h. absurd (omega arith)) (λ k h l. absurd (omega arith))

module _ {S E : Type 0} where
  abbrev pub AllFrom : ℤ → List (AfterLoadFuncInfo S E) → Type 0
  AllFrom p [] = Unit {0}
  AllFrom p (x ∷ xs) = (p ≤ℤ x.priority) × AllFrom p xs

  abbrev pub IsSorted : List (AfterLoadFuncInfo S E) → Type 0
  IsSorted [] = Unit {0}
  IsSorted (x ∷ xs) = AllFrom x.priority xs × IsSorted xs

  -- The reference: behind those of no higher priority.
  unfoldable pub stable_insert :
      AfterLoadFuncInfo S E → List (AfterLoadFuncInfo S E) → List (AfterLoadFuncInfo S E)
  stable_insert info [] = info ∷ []
  stable_insert info (x ∷ xs) =
      let rest = stable_insert info xs in
      if ltb_ℤ info.priority x.priority then info ∷ x ∷ xs else x ∷ rest

  AllFrom-get_or :
      (p : ℤ) (l : List (AfterLoadFuncInfo S E)) (k : ℕ) (d : AfterLoadFuncInfo S E)
      → AllFrom p l
      → k < length l
      → p ≤ℤ (get_or l k d).priority
  AllFrom-get_or p [] k d a h = absurd (omega arith)
  AllFrom-get_or p (x ∷ l) zero d a h = a.0
  AllFrom-get_or p (x ∷ l) (suc k) d a h = AllFrom-get_or p l k d a.1 (omega arith)

  pub runs_after-grows :
      (info : AfterLoadFuncInfo S E) (l : List (AfterLoadFuncInfo S E))
      → IsSorted l
      → (k m : ℕ) → k ≤ m
      → m < length l
      → runs_after info l k ≡ true
      → runs_after info l m ≡ true
  runs_after-grows info [] s k m h b e = absurd (omega arith)
  runs_after-grows info (x ∷ l) s zero zero h b e = e
  runs_after-grows info (x ∷ l) s (suc k) zero h b e = absurd (omega arith)
  runs_after-grows info (x ∷ l) s zero (suc m) h b e =
      ground (arith, AllFrom-get_or x.priority l m info s.0 (omega arith))
  runs_after-grows info (x ∷ l) s (suc k) (suc m) h b e =
      runs_after-grows info l s.1 k m (omega arith) (omega arith) e

  pub insert_at-Splits :
      (info : AfterLoadFuncInfo S E) (l : List (AfterLoadFuncInfo S E)) (r : ℕ)
      → Splits (runs_after info l) (length l) r
      → insert_at r info l ≡ stable_insert info l
  unfolding stable_insert
  insert_at-Splits info [] zero s = refl
  insert_at-Splits info [] (suc r) s = absurd (omega (arith, s.0))
  insert_at-Splits info (x ∷ l) zero s = rw (s.2 0 (omega arith) (omega arith)) refl
  insert_at-Splits info (x ∷ l) (suc r) s = rw (s.1 0 (omega arith)) (
      ap (◌∷◌ x) (
        insert_at-Splits info l r (
          omega (arith, s.0),
          λ k h. s.1 (suc k) (omega arith),
          λ k h b. s.2 (suc k) (omega arith) (omega arith),
        )))

  AllFrom-stable_insert :
      (p : ℤ) (info : AfterLoadFuncInfo S E) (l : List (AfterLoadFuncInfo S E))
      → p ≤ℤ info.priority
      → AllFrom p l
      → AllFrom p (stable_insert info l)
  unfolding stable_insert
  AllFrom-stable_insert p info [] h a = (h, tt)
  AllFrom-stable_insert p info (x ∷ l) h a = elim (Bool-cases (ltb_ℤ info.priority x.priority)) [
    | inl e ↦ rw e (h, a)
    | inr e ↦ rw e (a.0, AllFrom-stable_insert p info l h a.1)
  ]

  AllFrom-le : (p q : ℤ) (l : List (AfterLoadFuncInfo S E)) → p ≤ℤ q → AllFrom q l → AllFrom p l
  AllFrom-le p q [] h a = tt
  AllFrom-le p q (x ∷ l) h a = (ground (arith, a.0), AllFrom-le p q l h a.1)

  pub stable_insert-IsSorted :
      (info : AfterLoadFuncInfo S E) (l : List (AfterLoadFuncInfo S E))
      → IsSorted l
      → IsSorted (stable_insert info l)
  unfolding stable_insert
  stable_insert-IsSorted info [] s = (tt, tt)
  stable_insert-IsSorted info (x ∷ l) s = elim (Bool-cases (ltb_ℤ info.priority x.priority)) [
    | inl e ↦ rw e ((ground arith, AllFrom-le info.priority x.priority l (ground arith) s.0), s)
    | inr e ↦ rw e (
      AllFrom-stable_insert x.priority info l (ground arith) s.0,
      stable_insert-IsSorted info l s.1,
    )
  ]

  -- The functions of one priority, in their order.
  abbrev pub with_priority : ℤ → List (AfterLoadFuncInfo S E) → List (AfterLoadFuncInfo S E)
  with_priority p [] = []
  with_priority p (x ∷ xs) =
      let rest = with_priority p xs in if eqb_ℤ p x.priority then x ∷ rest else rest

  AllFrom-with_priority :
      (p q : ℤ) (l : List (AfterLoadFuncInfo S E))
      → ltb_ℤ p q ≡ true
      → AllFrom q l
      → with_priority p l ≡ []
  AllFrom-with_priority p q [] h a = refl
  AllFrom-with_priority p q (x ∷ l) h a = ground (arith, AllFrom-with_priority p q l h a.1)

  pub with_priority-stable_insert :
      (p : ℤ) (info : AfterLoadFuncInfo S E) (l : List (AfterLoadFuncInfo S E))
      → IsSorted l
      → with_priority p (stable_insert info l) ≡ with_priority p l ++ with_priority p (info ∷ [])
  unfolding stable_insert
  with_priority-stable_insert p info [] s = refl
  with_priority-stable_insert p info (x ∷ l) s = ground (
    arith,
    with_priority-stable_insert p info l s.1,
    AllFrom-with_priority p x.priority l,
    append-nil (with_priority p l),
    append-nil (with_priority p (x ∷ l)),
  )

  pub with_priority_cons :
      (p : ℤ) (info : AfterLoadFuncInfo S E) (done infos : List (AfterLoadFuncInfo S E))
      → (done ++ with_priority p (info ∷ [])) ++ with_priority p infos
        ≡ done ++ with_priority p (info ∷ infos)
  with_priority_cons p info done infos =
      append_assoc done (with_priority p (info ∷ [])) (with_priority p infos)
      ∙ elim (Bool-cases (eqb_ℤ p info.priority)) [ inl e ↦ rw e refl | inr e ↦ rw e refl ]
