-- ===== src/Player/Items/Effects.antt =====
-- What `Add` and `Sub` do to the amounts that `GetNum` shows.
use ggs.Prelude.{
  ℕ, ◌^◌, ◌≡◌, ◌≢◌, ◌⊎◌, ◌∙◌, refl, true, false, none, some, arith, ltb, ◌==◌, if◌then◌else◌,
  ==_iff, ==_refl, Bool-cases, Option-cases, inl, inr,
}
use ggs.Prelude.Int.{
  ℤ, pos, pos_part, IsInt64, ◌+ℤ◌, ◌-ℤ◌, ◌<ℤ◌, ◌≤ℤ◌, ltb_ℤ, leb_ℤ, sub64_within, add64, sub64,
}
use ggs.Prelude.Map.{Map, nat_eq, lookup, insert, erase, lookup-insert, lookup-erase}
use ggs.Player.Items.{Item, Items, find_item, item_or_new, get_num, add, add_item, sub, sub_from}
use ggs.Player.Items.Bounds.{IsValid, IsKept, add-IsValid}

-- The amount that `Add` leaves: the sum, or nothing at all if the sum does not fit an int64.
abbrev pub kept_sum : ℤ → ℤ
kept_sum s = if ltb (pos_part s) (2 ^ 63) then s else pos 0

module _ (m : Items) (t : Map ℕ Item) (e : m.items ≡ some t) (id : ℕ) (named : id ≢ 0) where
  get_num-erase :
      (j : ℕ)
      → get_num (record { items = some (erase id t) }) j ≡ (if id == j then pos 0 else get_num m j)
  unfolding get_num
  get_num-erase j = ground (arith, lookup-erase id j t)

  get_num-insert :
      (item : Item) (j : ℕ)
      → get_num (record { items = some (insert id item t) }) j
        ≡ (if id == j then item.num else get_num m j)
  unfolding get_num
  get_num-insert item j = ground (arith, lookup-insert id j item t)

-- How `Add` computes: the sum where it fits, and otherwise what is no longer positive.
add64-kept_sum :
    (a b : ℤ)
    → pos 0 ≤ℤ a
    → pos 0 <ℤ b
    → IsInt64 a
    → IsInt64 b
    → (if leb_ℤ (add64 a b) (pos 0) then pos 0 else add64 a b) ≡ kept_sum (a +ℤ b)
unfolding add64
add64-kept_sum a b ha hb ia ib = ground arith

module _ (m : Items) (v : IsValid m) (id : ℕ) (named : id ≢ 0) (num : ℤ) (more : pos 0 <ℤ num) where
  -- The two cases of an id: not in the map, or there with an amount in range.
  found_cases :
      ((find_item m id ≡ none) × (get_num m id ≡ pos 0))
      ⊎ ((item : Item) × (t : Map ℕ Item) × (m.items ≡ some t)
          × (lookup id t ≡ some item)
          × (get_num m id ≡ item.num)
          × IsKept id item)
  unfolding get_num
  found_cases = elim (Option-cases m.items) [
    | inl e ↦ inl (ground arith, ground arith)
    | inr (t, e) ↦ elim (Option-cases (lookup id t)) [
      | inl f ↦ inl (ground arith, ground arith)
      | inr (item, f) ↦ inr (item, t, e, f, ground arith, v.kept id item (rw e f))
    ]
  ]

  sub_at : sub m id num ≡ sub_from m id num (find_item m id)
  unfolding sub
  sub_at = ground arith

  -- `Sub` refuses when there is less than it is asked for, and then changes nothing; otherwise it
  -- takes exactly `num` from this item, and from no other.
  pub sub_effect :
      (j : ℕ)
      → ((ltb_ℤ (get_num m id) num ≡ true) × (sub m id num ≡ ((get_num m id, false), m)))
        ⊎ ((ltb_ℤ (get_num m id) num ≡ false)
            × ((sub m id num).0 ≡ (get_num m id -ℤ num, true))
            × (get_num (sub m id num).1 j ≡ (if id == j then get_num m id -ℤ num else get_num m j)))
  unfolding sub_from ◌-ℤ◌
  sub_effect j = elim found_cases [
    | inl (f, g) ↦ inl (ground arith, ground (arith, sub_at))
    | inr (item, t, e, f, g, k) ↦ elim (Bool-cases (ltb_ℤ item.num num)) [
      | inl c ↦ inl (ground arith, ground (arith, sub_at))
      | inr c ↦ inr (
        ground arith,
        ground (arith, sub_at, sub64_within item.num num),
        ground (
          arith,
          sub_at,
          sub64_within item.num num,
          get_num-erase m t e id named j,
          get_num-insert m t e id named (record item { num = sub64 item.num num }) j,
        ),
      )
    ]
  ]

  item_or_new_lem :
      (t : Map ℕ Item)
      → m.items ≡ some t
      → ((item_or_new id (lookup id t)).num ≡ get_num m id)
        × (pos 0 ≤ℤ (item_or_new id (lookup id t)).num)
        × IsInt64 (item_or_new id (lookup id t)).num
  item_or_new_lem t e = elim found_cases [
    | inl (f, g) ↦ (ground arith, ground arith, ground arith)
    | inr (item, t', e', f, g, k) ↦
        let same : t' ≡ t = ground arith in (ground arith, ground arith, ground arith)
  ]

  get_num_nonneg : (t : Map ℕ Item) → m.items ≡ some t → pos 0 ≤ℤ get_num m id
  get_num_nonneg t e = let (same, p, k) = item_or_new_lem t e in rw (← same) p

  add_item_effect :
      (t : Map ℕ Item) (j : ℕ) (item : Item)
      → m.items ≡ some t
      → item.num ≡ get_num m id
      → pos 0 ≤ℤ item.num
      → IsInt64 item.num
      → IsInt64 num
      → ((add_item t id num item).0 ≡ kept_sum (get_num m id +ℤ num))
        × (get_num (add_item t id num item).1 j
            ≡ (if id == j then kept_sum (get_num m id +ℤ num) else get_num m j))
  unfolding add_item
  add_item_effect t j item e f p k i =
      let sum = add64-kept_sum item.num num p more k i in
      elim (Bool-cases (leb_ℤ (add64 item.num num) (pos 0))) [
        | inl c ↦ (ground arith, ground (arith, get_num-erase m t e id named j))
        | inr c ↦ (
          ground arith,
          ground
              (arith, get_num-insert m t e id named (record item { num = add64 item.num num }) j),
        )
      ]

  -- `Add` leaves the sum; a sum that does not fit an int64 costs the player all that there was of
  -- this item. No other item changes.
  add_effect :
      (t : Map ℕ Item) (j : ℕ)
      → m.items ≡ some t
      → IsInt64 num
      → (m' : Items) × (add m id num ≡ some (kept_sum (get_num m id +ℤ num), m'))
        × (get_num m' j ≡ (if id == j then kept_sum (get_num m id +ℤ num) else get_num m j))
  unfolding add
  add_effect t j e i =
      let item = item_or_new id (lookup id t) in
      let (same, p, k) = item_or_new_lem t e in
      let (r, h) = add_item_effect t j item e same p k i in
      ((add_item t id num item).1, by_test r, h)
    where
      by_test :
          (add_item t id num (item_or_new id (lookup id t))).0 ≡ kept_sum (get_num m id +ℤ num)
          → add m id num
            ≡ some (
              kept_sum (get_num m id +ℤ num),
              (add_item t id num (item_or_new id (lookup id t))).1,
            )
      by_test r = ground arith

kept_sum_fits : (s : ℤ) → IsInt64 s → kept_sum s ≡ s
kept_sum_fits s h = ground arith

add_cancel : (a b : ℤ) → a +ℤ b -ℤ b ≡ a
unfolding ◌+ℤ◌ ◌-ℤ◌
add_cancel a b = ground arith

not_less : (a b : ℤ) → pos 0 ≤ℤ a → ltb_ℤ (a +ℤ b) b ≡ false
unfolding ◌+ℤ◌
not_less a b h = ground arith

-- A sum that fits is what `GetNum` shows after `Add`.
get_num-add :
    (m m' : Items) (t : Map ℕ Item) (id : ℕ) (num sum : ℤ) (j : ℕ)
    → IsValid m
    → m.items ≡ some t
    → id ≢ 0
    → pos 0 <ℤ num
    → IsInt64 num
    → IsInt64 (get_num m id +ℤ num)
    → add m id num ≡ some (sum, m')
    → get_num m' j ≡ (if id == j then get_num m id +ℤ num else get_num m j)
get_num-add m m' t id num sum j v e named more i fits h =
    let (n, q, g) = add_effect m v id named num more t j e i in
    let same : n ≡ m' = ground arith in
    rw (← same) (rw (← kept_sum_fits (get_num m id +ℤ num) fits) g)

-- What `Add` put in, `Sub` takes out again: if the sum fits an int64, the amounts of all items are
-- what they were.
pub sub-add :
    (m m' : Items) (t : Map ℕ Item) (id : ℕ) (num sum : ℤ) (j : ℕ)
    → IsValid m
    → m.items ≡ some t
    → id ≢ 0
    → pos 0 <ℤ num
    → IsInt64 num
    → IsInt64 (get_num m id +ℤ num)
    → add m id num ≡ some (sum, m')
    → ((sub m' id num).0 ≡ (get_num m id, true)) × (get_num (sub m' id num).1 j ≡ get_num m j)
sub-add m m' t id num sum j v e named more i fits h =
    let at_id : get_num m' id ≡ get_num m id +ℤ num =
      get_num-add m m' t id num sum id v e named more i fits h ∙ rw (==_refl id) refl in
    let at_j = get_num-add m m' t id num sum j v e named more i fits h in
    let nonneg : pos 0 ≤ℤ get_num m id = get_num_nonneg m v id named num more t e in
    elim (sub_effect m' (add-IsValid m id num v h) id named num more j) [
      | inl (c, _) ↦ ground (arith, not_less (get_num m id) num nonneg)
      | inr (c, q, g) ↦ (
        q ∙ rw at_id (rw (add_cancel (get_num m id) num) refl),
        g ∙ rw at_id (rw (add_cancel (get_num m id) num) (ground (arith, ==_iff id j))),
      )
    ]
