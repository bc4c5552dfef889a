-- ===== src/Player/Items.antt =====
-- The item module of a player (internal/infra/actor/model/player/items.go).
--
-- An item id is an int32 by its bit pattern: the code compares ids and never computes with them.
-- An amount is an int64. The pointers `*Item` stay inside the map, so that an item is a value here.
pub mod Bounds
pub mod Effects
use ggs.Prelude.{ℕ, Bool, true, false, ◌||◌, Option, none, some, List, [], ◌==◌, if◌then◌else◌}
use ggs.Prelude.Int.{ℤ, pos, ltb_ℤ, leb_ℤ, eqb_ℤ, add64, sub64}
use ggs.Prelude.Map.{Map, nat_eq, lookup, insert, erase}

pub record Item : Type 0 where
  pub id : ℕ  -- int32
  pub num : ℤ  -- int64

-- `none` is the nil map, as a document without the field leaves it.
pub record Items : Type 0 where
  pub items : Option (Map ℕ Item)

abbrev pub no_item : Item
no_item = record { id = 0; num = pos 0 }

-- `m.Items[id]`, which reads a nil map as an empty one.
abbrev pub find_item : Items → ℕ → Option Item
find_item m id = elim m.items [ none ↦ none | some t ↦ lookup id t ]

pub on_init : Items → Items
on_init m = record { items = some [] }

unfoldable pub get_num : Items → ℕ → ℤ
get_num m id =
    if id == 0 then pos 0 else elim (find_item m id) [ none ↦ pos 0 | some item ↦ item.num ]

unfoldable pub get_item : Items → ℕ → Item × Bool
get_item m id =
    if id == 0
    then (no_item, false)
    else elim (find_item m id) [ none ↦ (no_item, false) | some item ↦ (item, true) ]

-- The item that `Add` works on: the one in the map, or a new one.
abbrev item_or_new : ℕ → Option Item → Item
item_or_new id none = record { id = id; num = pos 0 }
item_or_new id (some item) = item

unfoldable pub add_item : Map ℕ Item → ℕ → ℤ → Item → ℤ × Items
add_item t id num item =
    let sum = add64 item.num num in
    if leb_ℤ sum (pos 0)
    then (pos 0, record { items = some (erase id t) })
    else (sum, record { items = some (insert id (record item { num = sum }) t) })

-- `none` is the panic of a write to a nil map.
unfoldable pub add : Items → ℕ → ℤ → Option (ℤ × Items)
unfolding add_item get_num
add m id num = if id == 0 || leb_ℤ num (pos 0) then some (get_num m id, m) else elim m.items [
  | none ↦ none
  | some t ↦ some (add_item t id num (item_or_new id (lookup id t)))
]

-- `m.Items[id] = item`, or `delete` of it, on a map that holds an item and so is not nil.
abbrev put_item : Items → ℕ → Item → Items
put_item m id item = elim m.items [ none ↦ m | some t ↦ record { items = some (insert id item t) } ]

abbrev delete_item : Items → ℕ → Items
delete_item m id = elim m.items [ none ↦ m | some t ↦ record { items = some (erase id t) } ]

sub_from : Items → ℕ → ℤ → Option Item → (ℤ × Bool) × Items
sub_from m id num none = ((pos 0, false), m)
sub_from m id num (some item) =
    let left = sub64 item.num num in
    if ltb_ℤ item.num num
    then ((item.num, false), m)
    else if eqb_ℤ left (pos 0)
    then ((pos 0, true), delete_item m id)
    else ((left, true), put_item m id (record item { num = left }))

-- The amount after the call, whether it was taken, and the new state.
unfoldable pub sub : Items → ℕ → ℤ → (ℤ × Bool) × Items
unfolding sub_from get_num
sub m id num =
    if id == 0
    then ((pos 0, false), m)
    else if leb_ℤ num (pos 0)
    then ((get_num m id, true), m)
    else sub_from m id num (find_item m id)
