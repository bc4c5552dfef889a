-- ===== src/Player/Samples.antt =====
-- A bag of two items, and the theorems at work on it.
use ggs.Prelude.{ℕ, ◌≡◌, refl, true, some, [], ◌∷◌, arith, ◌==◌, Bool-cases, inl, inr}
use ggs.Prelude.Int.{pos, ◌+ℤ◌, add64}
use ggs.Prelude.Map.{Map, nat_eq, lookup, insert}
use ggs.Player.Items.{Item, Items, get_num, add, add_item, sub}
use ggs.Player.Items.Bounds.{IsValid}
use ggs.Player.Items.Effects.{sub-add}

abbrev item_of : ℕ → ℕ → Item
item_of id num = record { id = id; num = pos num }

abbrev bag_map : Map ℕ Item
bag_map = (3, item_of 3 40) ∷ (8, item_of 8 1) ∷ []

abbrev bag : Items
bag = record { items = some bag_map }

bag-IsValid : IsValid bag
unfolding lookup
bag-IsValid = record {
  kept = λ id item h. elim (Bool-cases (3 == id)) [
    | inl e ↦ record {
      keyed = ground arith;
      named = ground arith;
      positive = ground arith;
      fits = ground arith;
    }
    | inr e ↦ elim (Bool-cases (8 == id)) [
      | inl f ↦ record {
        keyed = ground arith;
        named = ground arith;
        positive = ground arith;
        fits = ground arith;
      }
      | inr f ↦ absurd (ground arith)
    ]
  ];
}

abbrev more_map : Map ℕ Item
more_map = (3, item_of 3 45) ∷ (8, item_of 8 1) ∷ []

add_test : add bag 3 (pos 5) ≡ some (pos 45, record { items = some more_map })
unfolding add add_item add64 ◌+ℤ◌ lookup insert
add_test = refl

get_num_test : get_num bag 3 +ℤ pos 5 ≡ pos 45
unfolding get_num lookup ◌+ℤ◌
get_num_test = refl

sub-add_example :
    ((sub (record { items = some more_map }) 3 (pos 5)).0 ≡ (get_num bag 3, true))
    × (get_num (sub (record { items = some more_map }) 3 (pos 5)).1 8 ≡ get_num bag 8)
sub-add_example =
    sub-add bag (record { items = some more_map }) bag_map 3 (pos 5) (pos 45) 8 bag-IsValid refl
      (omega arith) (omega arith) (omega arith, omega arith)
      (rw get_num_test (omega arith, omega arith)) add_test
