-- ===== src/Player/Items/Bounds.antt =====
-- Every amount that is kept is positive and fits an int64.
use ggs.Prelude.{
  ℕ, ◌≡◌, ◌≢◌, refl, Option, none, some, arith, ◌==◌, ==_iff, Bool-cases, Option-cases, inl, inr,
  ◌||◌,
}
use ggs.Prelude.Int.{
  ℤ, pos, IsInt64, ◌<ℤ◌, ltb_ℤ, leb_ℤ, eqb_ℤ, sub64_within, add64, sub64, add64-IsInt64,
  sub64-IsInt64,
}
use ggs.Prelude.Map.{Map, nat_eq, lookup, insert, erase, lookup-insert, lookup-erase}
use ggs.Player.Items.{Item, Items, find_item, item_or_new, on_init, add, add_item, sub, sub_from}

pub record IsKept (id : ℕ) (item : Item) : Type 0 where
  pub keyed : item.id ≡ id
  pub named : id ≢ 0
  pub positive : pos 0 <ℤ item.num
  pub fits : IsInt64 item.num

-- The invariant: an item stands under its own id, is not id 0, and has a positive amount.
pub record IsValid (m : Items) : Type 0 where
  pub kept : (id : ℕ) (item : Item) → find_item m id ≡ some item → IsKept id item

pub on_init-IsValid : (m : Items) → IsValid (on_init m)
unfolding on_init lookup
on_init-IsValid m = record { kept = λ id item h. cc }

module _ (m : Items) (t : Map ℕ Item) (e : m.items ≡ some t) (v : IsValid m) where
  insert-IsValid :
      (id : ℕ) (item : Item) → IsKept id item → IsValid (record { items = some (insert id item t) })
  insert-IsValid id item k = record {
    kept = λ j x h. ground (arith, lookup-insert id j item t, v.kept j x, ==_iff id j);
  }

  erase-IsValid : (id : ℕ) → IsValid (record { items = some (erase id t) })
  erase-IsValid id = record { kept = λ j x h. ground (arith, lookup-erase id j t, v.kept j x) }

  add_item-IsValid :
      (id : ℕ) (num : ℤ) (item : Item) → id ≢ 0 → item.id ≡ id → IsValid (add_item t id num item).1
  unfolding add_item
  add_item-IsValid id num item h k = elim (Bool-cases (leb_ℤ (add64 item.num num) (pos 0))) [
    | inl c ↦ rw c (erase-IsValid id)
    | inr c ↦ rw c (
        insert-IsValid id _ (record {
          keyed = k;
          named = h;
          positive = ground arith;
          fits = add64-IsInt64 item.num num;
        }))
  ]

  sub_from-IsValid :
      (id : ℕ) (num : ℤ) (item : Item)
      → lookup id t ≡ some item
      → pos 0 <ℤ num
      → IsValid (sub_from m id num (some item)).1
  unfolding sub_from
  sub_from-IsValid id num item h k =
      let at_id : IsKept id item = v.kept id item (rw e h) in
      elim (Bool-cases (ltb_ℤ item.num num)) [
        | inl c ↦ rw c v
        | inr c ↦ elim (Bool-cases (eqb_ℤ (sub64 item.num num) (pos 0))) [
          | inl d ↦ rw (c, d, e) (erase-IsValid id)
          | inr d ↦
              rw (c, d, e)
                (insert-IsValid id _ (record {
                  keyed = at_id.keyed;
                  named = at_id.named;
                  positive = ground (arith, sub64_within item.num num);
                  fits = sub64-IsInt64 item.num num;
                }))
        ]
      ]

  item_or_new_keyed :
      (id : ℕ) (found : Option Item) → lookup id t ≡ found → (item_or_new id found).id ≡ id
  item_or_new_keyed id none h = refl
  item_or_new_keyed id (some item) h = (v.kept id item (rw e h)).keyed

-- `Add` keeps the invariant, whatever the id and the amount, overflow included.
pub add-IsValid :
    (m : Items) (id : ℕ) (num : ℤ) {r : ℤ × Items} → IsValid m → add m id num ≡ some r → IsValid r.1
unfolding add
add-IsValid m id num {r} v h = elim (Bool-cases (id == 0 || leb_ℤ num (pos 0))) [
  | inl c ↦ let same : r.1 ≡ m = ground arith in rw same v
  | inr c ↦ elim (Option-cases m.items) [
    | inl e ↦ ground arith
    | inr (t, e) ↦
        let same : r ≡ add_item t id num (item_or_new id (lookup id t)) = ground arith in
        rw same (
          add_item-IsValid m t e v id num (item_or_new id (lookup id t)) (ground arith)
            (item_or_new_keyed m t e v id (lookup id t) refl))
  ]
]

-- `Sub` keeps the invariant.
sub-IsValid : (m : Items) (id : ℕ) (num : ℤ) → IsValid m → IsValid (sub m id num).1
unfolding sub
sub-IsValid m id num v = elim (Bool-cases (id == 0)) [
  | inl c ↦ rw c v
  | inr c ↦ elim (Bool-cases (leb_ℤ num (pos 0))) [
    | inl d ↦ rw (c, d) v
    | inr d ↦ rw (c, d) (by_found (ground arith) (find_item m id) refl)
  ]
]
  where
    by_found :
        pos 0 <ℤ num
        → (found : Option Item) → find_item m id ≡ found
        → IsValid (sub_from m id num found).1
    by_found p none e = v
    by_found p (some item) e = elim (Option-cases m.items) [
      | inl q ↦ ground arith
      | inr (t, q) ↦ sub_from-IsValid m t q v id num item (ground arith) (ground arith)
    ]
