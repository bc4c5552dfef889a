-- ===== src/GameData/Loaded.antt =====
-- What reading a collection in batches ends in (internal/gdconf).
use mathlib.Core.List.Memᴰ.{Memᴰ}
use ggs.Prelude.{
  ℕ, zero, suc, ◌+◌, ◌*◌, ◌%◌, ◌^◌, ◌≤◌, ◌<◌, ◌≡◌, refl, ap, ◌∙◌, true, false, some, List, [], ◌∷◌,
  ◌++◌, length-append, ltb, length, take, drop, arith, Bool-cases, inl, inr, ◌⊎◌, Result, ok, err,
  take-length, length-take_le, length-drop,
}
use ggs.Prelude.Map.{nat_eq, string_eq}
use ggs.GameData.Tables.{
  Collection, TableError, load_failed, decode_failed, load_batches, load_batch_size, load_normal,
}

module _ {A : Type 0} where
  -- All of these documents are of the collection.
  abbrev pub AreOf : List A → List A → Type 0
  AreOf docs [] = Unit {0}
  AreOf docs (x ∷ xs) = Memᴰ x docs × AreOf docs xs

  AreOf-append : (docs l m : List A) → AreOf docs l → AreOf docs m → AreOf docs (l ++ m)
  AreOf-append docs [] m h k = k
  AreOf-append docs (x ∷ l) m h k = (h.0, AreOf-append docs l m h.1 k)

  length-take_cases :
      (limit : ℕ) (l : List A)
      → ((length l ≤ limit) × (length (take limit l) ≡ length l))
        ⊎ ((limit ≤ length l) × (length (take limit l) ≡ limit))
  length-take_cases limit l = elim (Bool-cases (ltb (length l) limit)) [
    | inl e ↦ inl (ground arith, ap length (take-length limit l (ground arith)))
    | inr e ↦ inr (ground arith, length-take_le limit l (ground arith))
  ]

module _ {E A : Type 0} where
  abbrev pub Fails : Result E (Result E (List A)) → Type 0
  Fails (ok (ok _)) = ⊥
  Fails _ = Unit {0}

  -- Each call fails, or answers documents of the collection, in whatever order: as many as are asked for, or
  -- as there are behind those skipped.
  abbrev pub IsCollection : Collection E A → List A → Type 0
  IsCollection coll docs =
      (skip limit : ℕ)
      → Fails (coll skip limit)
        ⊎ ((page : List A) × (coll skip limit ≡ ok (ok page))
            × AreOf docs page
            × (length page ≡ length (take limit (drop skip docs))))

  -- What reading ends in: as many documents of the collection as it has, or the error of a call.
  abbrev pub IsLoaded : ℕ → Collection E A → List A → Result (TableError E) (List A) → Type 0
  IsLoaded limit coll docs (ok entries) = (length entries ≡ length docs) × AreOf docs entries
  IsLoaded limit coll docs (err (load_failed skip e)) = coll skip limit ≡ err e
  IsLoaded limit coll docs (err (decode_failed skip e)) = coll skip limit ≡ ok (err e)
  IsLoaded limit coll docs (err _) = ⊥

  module _ (coll : Collection E A) (docs : List A) where
    round_failed :
        (limit rounds skip : ℕ) (a : Result E (Result E (List A))) (done : List A)
        → coll skip limit ≡ a
        → Fails a
        → (r : Result (TableError E) (List A)) × (load_batches limit coll (suc rounds) skip done
            ≡ some r)
          × IsLoaded limit coll docs r
    unfolding load_batches
    round_failed limit rounds skip (err x) done e h =
        (err (load_failed skip x), rw (load_batches, e) refl, e)
    round_failed limit rounds skip (ok (err x)) done e h =
        (err (decode_failed skip x), rw (load_batches, e) refl, e)
    round_failed limit rounds skip (ok (ok x)) done e h = elim h [ ]

    -- A page that is not full is the last.
    last_round :
        (limit rounds skip : ℕ) (page done : List A)
        → coll skip limit ≡ ok (ok page)
        → ltb (length page) limit ≡ true
        → load_batches limit coll (suc rounds) skip done ≡ some (ok (done ++ page))
    unfolding load_batches
    last_round limit rounds skip page done a e = rw (load_batches, a, e) refl

    full_round :
        (limit rounds skip : ℕ) (page done : List A)
        → coll skip limit ≡ ok (ok page)
        → length page ≡ limit
        → skip + limit < 2 ^ 64
        → load_batches limit coll (suc rounds) skip done
          ≡ load_batches limit coll rounds (skip + limit) (done ++ page)
    unfolding load_batches
    full_round limit rounds skip page done a n f =
        let all : ltb limit limit ≡ false = ground arith in
        let k : (skip + limit) % 2 ^ 64 ≡ skip + limit = omega arith in
        rw (load_batches, a, n, all, k) refl

    load_batches_ends :
        (is : IsCollection coll docs) (limit rounds skip : ℕ) (done : List A)
        → 0 < limit
        → length docs < 2 ^ 64
        → length docs < rounds * limit + skip
        → length done ≡ skip
        → skip ≤ length docs
        → AreOf docs done
        → (r : Result (TableError E) (List A)) × (load_batches limit coll rounds skip done ≡ some r)
          × IsLoaded limit coll docs r
    load_batches_ends is limit zero skip done l f e n h d = absurd (omega arith)
    load_batches_ends is limit (suc rounds) skip done l f e n h d = elim (is skip limit) [
      | inl x ↦ round_failed limit rounds skip (coll skip limit) done refl x
      | inr (page, a, of, m) ↦
          let behind = length-drop skip docs in
          let sum = length-append done page in
          let joined = AreOf-append docs done page d of in
          elim (length-take_cases limit (drop skip docs)) [
            | inl (few, q) ↦ elim (Bool-cases (ltb (length page) limit)) [
              | inl s ↦ (
                ok (done ++ page),
                last_round limit rounds skip page done a s,
                (omega (arith, behind, sum), joined),
              )
              | inr s ↦
                  let whole : length page ≡ limit = ground (arith, behind) in
                  let (r, p, i) =
                    load_batches_ends is limit rounds (skip + limit) (done ++ page) l f
                      (omega arith) (omega (arith, sum)) (omega (arith, behind)) joined in
                  (r, full_round limit rounds skip page done a whole (omega (arith, behind)) ∙ p, i)
            ]
            | inr (many, q) ↦
                let (r, p, i) =
                  load_batches_ends is limit rounds (skip + limit) (done ++ page) l f (omega arith)
                    (omega (arith, sum)) (omega (arith, behind)) joined in
                (
                  r,
                  full_round limit rounds skip page done a (omega arith) (omega (arith, behind))
                      ∙ p,
                  i,
                )
          ]
    ]

-- Reading a collection in batches ends, with a round for every batch and one more. If it ends in an error,
-- it is that of a call that failed. Else it has as many documents as the collection, and each of them is of
-- the collection, whatever the order in which the pages come.
pub load_normal_ends :
    {E A : Type 0} (coll : Collection E A) (docs : List A) (rounds : ℕ)
    → IsCollection coll docs
    → length docs < 2 ^ 64
    → length docs < rounds * load_batch_size
    → (r : Result (TableError E) (List A)) × (load_normal coll rounds [] ≡ some r)
      × IsLoaded load_batch_size coll docs r
load_normal_ends coll docs rounds is f h =
    load_batches_ends coll docs is load_batch_size rounds 0 [] (omega arith) f (omega arith) refl
      (omega arith) tt
