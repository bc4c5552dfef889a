-- ===== src/GameData/Tables.antt =====
-- The tables of the game (internal/gdconf/gdconf_load_helper.go, Item.go, Item_ext.go and Global.go),
-- and the functions that load them.
use ggs.Prelude.{
  ℕ, zero, suc, ◌+◌, ◌%◌, ◌^◌, Option, none, some, List, [], ◌∷◌, ◌++◌, ltb, length, if◌then◌else◌,
  Result, ok, err,
}
use ggs.Prelude.Int.{ℤ, pos}
use ggs.Prelude.Map.{Map, nat_eq, lookup, insert}
use ggs.GameData.{LoadFuncInfo, AfterLoadFuncInfo, Registry, RegisterPanic, register_load_func}

-- The identifier and the level are the bit patterns of int32 numbers.
pub record Item : Type 0 where
  pub id : ℕ
  pub name : List ℕ
  pub kind : ℕ
  pub sub_type : ℕ
  pub icon : List ℕ
  pub level : ℕ

pub record TblItem : Type 0 where
  pub entries : List Item
  pub by_id : Map ℕ Item

-- The starting items are pairs of an identifier and an amount.
pub record Global : Type 0 where
  pub first : ℤ
  pub second : ℤ
  pub init_items : List (ℤ × ℤ)

-- `apGlobal`, `apTblItem` and `levelOfItems`
pub record Tables : Type 0 where
  pub global : Option Global
  pub items : Option TblItem
  pub level_of_items : Option (Map ℕ (List Item))

-- What `Find` with a skip and a limit answers: an error, or a cursor, which is what `All` makes of it.
abbrev pub Collection : Type 0 → Type 0 → Type 0
Collection E A = ℕ → ℕ → Result E (Result E (List A))

pub data TableError (E : Type 0) : Type 0 where
  load_failed decode_failed : ℕ → E → TableError E
  global_failed : E → TableError E
  no_table : TableError E  -- the dereference of a nil table
  unfinished : TableError E  -- rounds ran out

abbrev pub load_batch_size : ℕ
load_batch_size = 1000

-- The loop of `loadNormal`. Its test for ErrNoDocuments is on an error that is nil there.
unfoldable pub load_batches :
    {E A : Type 0} → ℕ → Collection E A → ℕ → ℕ → List A → Option (Result (TableError E) (List A))
load_batches limit coll zero skip all_entries = none
load_batches limit coll (suc rounds) skip all_entries = elim (coll skip limit) [
  | err e ↦ some (err (load_failed skip e))
  | ok (err e) ↦ some (err (decode_failed skip e))
  | ok (ok entries) ↦
      let rest =
        load_batches limit coll rounds ((skip + length entries) % 2 ^ 64)
          (all_entries ++ entries) in
      if ltb (length entries) limit then some (ok (all_entries ++ entries)) else rest
]

-- `loadNormal`
abbrev pub load_normal :
    {E A : Type 0} → Collection E A → ℕ → List A → Option (Result (TableError E) (List A))
load_normal coll rounds all_entries = load_batches load_batch_size coll rounds 0 all_entries

-- `tblItem.init`
unfoldable pub index_by_id : List Item → Map ℕ Item → Map ℕ Item
index_by_id [] m = m
index_by_id (e ∷ entries) m = index_by_id entries (insert e.id e m)

-- `ByID`
abbrev pub by_id : ℕ → TblItem → Option Item
by_id id t = lookup id t.by_id

-- The items of a level, none if the map has no such key.
abbrev pub items_of : Option (List Item) → List Item
items_of none = []
items_of (some items) = items

abbrev pub level_items : ℕ → Map ℕ (List Item) → List Item
level_items level v = items_of (lookup level v)

-- The loop of the function that runs after the items are loaded.
unfoldable pub group_levels : List Item → Map ℕ (List Item) → Map ℕ (List Item)
group_levels [] v = v
group_levels (item ∷ items) v =
    group_levels items (insert item.level (level_items item.level v ++ (item ∷ [])) v)

-- `GetLevelOfItems`; before the first loading it panics.
abbrev pub get_level_of_items : ℕ → Tables → Option (List Item)
get_level_of_items level s = elim s.level_of_items [
  | none ↦ none
  | some v ↦ some (level_items level v)
]

-- The collections that the tables are read from.
pub record Database (E : Type 0) : Type 0 where
  pub items : Collection E Item
  pub global : Result E Global

module _ {E : Type 0} where
  -- `global.load` and `loadGlobal`
  abbrev pub load_global : Database E → Tables → Option (TableError E) × Tables
  load_global db s = elim db.global [
    | err e ↦ (some (global_failed e), s)
    | ok t ↦ (none, record s { global = some t })
  ]

  -- `tblItem.load`, and the table stored
  abbrev pub store_items :
      Option (Result (TableError E) (List Item)) → Tables → Option (TableError E) × Tables
  store_items none s = (some unfinished, s)
  store_items (some (err e)) s = (some e, s)
  store_items (some (ok entries)) s = (
    none,
    record s { items = some (record { entries = entries; by_id = index_by_id entries [] }) },
  )

  abbrev pub load_items : ℕ → Database E → Tables → Option (TableError E) × Tables
  load_items rounds db s = store_items (load_normal db.items rounds []) s

  -- The function that Item_ext.go registers.
  abbrev pub level_items_loaded : Tables → Option (TableError E) × Tables
  level_items_loaded s = elim s.items [
    | none ↦ (some no_table, s)
    | some t ↦ (none, record s { level_of_items = some (group_levels t.entries []) })
  ]

  module _ (rounds : ℕ) where
    abbrev pub global_load_func : LoadFuncInfo (Database E) Tables (TableError E)
    global_load_func = record { table_name = "Global"; f = load_global }

    abbrev pub item_load_func : LoadFuncInfo (Database E) Tables (TableError E)
    item_load_func = record { table_name = "Item"; f = load_items rounds }

    abbrev pub item_after_load_func : AfterLoadFuncInfo Tables (TableError E)
    item_after_load_func = record { table_name = "Item"; f = level_items_loaded; priority = pos 0 }

    -- `registerAllLoadFuncs`
    unfoldable pub register_all_load_funcs :
        Registry (Database E) Tables (TableError E)
        → Result RegisterPanic (Registry (Database E) Tables (TableError E))
    register_all_load_funcs r =
        elim (register_load_func global_load_func
          (record r { load_funcs = []; load_func_map = [] })) [
            | err e ↦ err e
            | ok r' ↦ register_load_func item_load_func r'
          ]
