-- ===== src/GameData/Levels.antt =====
-- The maps that are made of the items (internal/gdconf/Item.go and Item_ext.go), and the tables that
-- the game's registered functions leave.
use ggs.Prelude.{
  ℕ, ◌*◌, ◌^◌, ◌<◌, ◌≡◌, refl, sym, ap, ◌∙◌, Option, none, some, List, [], ◌∷◌, ◌++◌, ◌==◌, length,
  if◌then◌else◌, arith, append_assoc, append-nil, Bool-cases, inl, inr, Result, ok, err,
}
use ggs.Prelude.Map.{Map, nat_eq, string_eq, lookup, insert, lookup-insert}
use mathlib.Core.Path.{subst}
use ggs.GameData.{
  search_from, Registry, RegisterPanic, LoadError, run_each, load_all, load_table, select_tables,
  register_load_func, register_after_load_func, AfterLoadFuncInfo, LoadFuncInfo,
}
use ggs.GameData.Order.{no_registry}
use ggs.GameData.Tables.{
  Item, TblItem, Global, Tables, Collection, TableError, load_normal, store_items, load_batch_size,
  index_by_id, by_id, items_of, level_items, group_levels, get_level_of_items, Database,
  global_load_func, item_load_func, item_after_load_func, register_all_load_funcs,
}
use ggs.GameData.Loaded.{IsCollection, AreOf, IsLoaded, load_normal_ends}

-- The items of a level, in the order of the table.
abbrev pub with_level : ℕ → List Item → List Item
with_level level [] = []
with_level level (x ∷ xs) =
    let rest = with_level level xs in if x.level == level then x ∷ rest else rest

-- The last item with an identifier.
abbrev pub last_with : ℕ → List Item → Option Item
last_with id [] = none
last_with id (x ∷ xs) =
    let rest = last_with id xs in
    elim rest [ some y ↦ some y | none ↦ if x.id == id then some x else none ]

level_added :
    (level : ℕ) (x : Item) (items : List Item) (v : Map ℕ (List Item))
    → items_of
          (if x.level == level then some (level_items x.level v ++ (x ∷ [])) else lookup level v)
        ++ with_level level items
      ≡ level_items level v ++ with_level level (x ∷ items)
level_added level x items v = elim (Bool-cases (x.level == level)) [
  | inl e ↦
      let q : x.level ≡ level = ground arith in
      rw e (
        append_assoc (level_items x.level v) (x ∷ []) (with_level level items)
        ∙ ap (λ l. level_items l v ++ (x ∷ with_level level items)) q)
  | inr e ↦ rw e refl
]

group_levels_from :
    (level : ℕ) (items : List Item) (v : Map ℕ (List Item))
    → level_items level (group_levels items v) ≡ level_items level v ++ with_level level items
unfolding group_levels
group_levels_from level [] v = sym (append-nil (level_items level v))
group_levels_from level (x ∷ items) v =
    group_levels_from level items (insert x.level (level_items x.level v ++ (x ∷ [])) v)
    ∙ ap (λ o. items_of o ++ with_level level items)
        (lookup-insert x.level level (level_items x.level v ++ (x ∷ [])) v)
    ∙ level_added level x items v

abbrev or_else : Option Item → Option Item → Option Item
or_else none o = o
or_else (some x) o = some x

index_by_id_from :
    (id : ℕ) (items : List Item) (m : Map ℕ Item)
    → lookup id (index_by_id items m) ≡ or_else (last_with id items) (lookup id m)
unfolding index_by_id
index_by_id_from id [] m = refl
index_by_id_from id (x ∷ items) m =
    index_by_id_from id items (insert x.id x m) ∙ ground (arith, lookup-insert x.id id x m)

module _ {E : Type 0} where
  -- What the registrations leave that run when the program starts.
  abbrev pub game_registry : ℕ → Registry (Database E) Tables (TableError E)
  game_registry rounds = record {
    load_funcs = global_load_func rounds ∷ item_load_func rounds ∷ [];
    load_func_map = ("Global", global_load_func rounds) ∷ ("Item", item_load_func rounds) ∷ [];
    after_load_funcs = item_after_load_func rounds ∷ [];
    after_load_func_map = ("Item", item_after_load_func rounds) ∷ [];
  }

  abbrev pub then_register :
      Result RegisterPanic (Registry (Database E) Tables (TableError E))
      → ℕ
      → Result RegisterPanic (Registry (Database E) Tables (TableError E))
  then_register (err e) rounds = err e
  then_register (ok r) rounds = register_all_load_funcs rounds r

  game_registry_lem :
      (rounds : ℕ)
      → then_register (register_after_load_func (item_after_load_func rounds) no_registry) rounds
        ≡ ok (game_registry rounds)
  unfolding register_all_load_funcs register_after_load_func register_load_func lookup insert
      search_from
  game_registry_lem rounds = refl

-- The map by level and the map by identifier are those of the items.
abbrev pub IsGrouped : List Item → Tables → Type 0
IsGrouped docs s = (level : ℕ) → get_level_of_items level s ≡ some (with_level level docs)

abbrev pub IsTable : List Item → TblItem → Type 0
IsTable docs t = (t.entries ≡ docs) × ((id : ℕ) → by_id id t ≡ last_with id docs)

abbrev pub HasItems : List Item → Option TblItem → Type 0
HasItems docs none = ⊥
HasItems docs (some t) = IsTable docs t

-- Loading without an error leaves as many items as the collection has documents, each of them one of these,
-- and with an error it leaves the items and levels of before.
abbrev pub IsLoading : {E : Type 0} → List Item → Tables → Option (LoadError E) × Tables → Type 0
IsLoading docs s (none, s') =
    (entries : List Item) × (length entries ≡ length docs)
    × AreOf docs entries
    × HasItems entries s'.items
    × IsGrouped entries s'
IsLoading docs s (some _, s') = (s'.items ≡ s.items) × (s'.level_of_items ≡ s.level_of_items)

made-IsTable :
    (docs : List Item) → IsTable docs (record { entries = docs; by_id = index_by_id docs [] })
unfolding lookup
made-IsTable docs = (refl, λ id. index_by_id_from id docs [] ∙ go (last_with id docs))
  where
    go : (o : Option Item) → or_else o none ≡ o
    go none = refl
    go (some x) = refl

module _ {E : Type 0} where
  abbrev from_global : Collection E Item → Result E Global → Database E
  from_global items g = record { items = items; global = g }

  -- The item table's loading with what the collection's reading gives.
  abbrev read_as :
      Option (Result (TableError E) (List Item)) → LoadFuncInfo (Database E) Tables (TableError E)
  read_as r = record { table_name = "Item"; f = λ db. store_items r }

module _ {E : Type 0} (rounds : ℕ) (items : Collection E Item) (docs : List Item) where
  abbrev load_as :
      Result E Global
      → Option (Result (TableError E) (List Item))
      → Tables
      → Option (LoadError (TableError E)) × Tables
  load_as g r s =
      load_all
        (record (game_registry rounds) { load_funcs = global_load_func rounds ∷ read_as r ∷ [] })
        (some (from_global items g)) s

  load_as-IsLoading :
      (g : Result E Global) (r : Result (TableError E) (List Item)) (s : Tables)
      → IsLoaded load_batch_size items docs r
      → IsLoading docs s (load_as g (some r) s)
  unfolding load_all run_each lookup
  load_as-IsLoading (err e) r s i = (refl, refl)
  load_as-IsLoading (ok g) (err e) s i = (refl, refl)
  load_as-IsLoading (ok g) (ok entries) s (n, of) =
      (entries, n, of, made-IsTable entries, λ level. ap some (group_levels_from level entries []))

  load_all_normal :
      (g : Result E Global) (r : Result (TableError E) (List Item)) (s : Tables)
      → load_normal items rounds [] ≡ some r
      → IsLoaded load_batch_size items docs r
      → IsLoading docs s (load_all (game_registry rounds) (some (from_global items g)) s)
  unfolding load_all run_each lookup
  load_all_normal g r s q i =
      subst (λ x. IsLoading docs s (load_as g x s)) (sym q) (load_as-IsLoading g r s i)

-- Whatever calls of the database fail, loading all tables ends, with a round for every batch and one more.
-- Without an error, the items are as many as the documents of their collection and each of them is one of
-- these, in whatever order pages come, and they are found by identifier and grouped by level. With an
-- error, the items and levels of before are kept.
pub load_all-IsLoading :
    {E : Type 0} (rounds : ℕ) (db : Database E) (docs : List Item) (s : Tables)
    → IsCollection db.items docs
    → length docs < 2 ^ 64
    → length docs < rounds * load_batch_size
    → IsLoading docs s (load_all (game_registry rounds) (some db) s)
load_all-IsLoading rounds db docs s is f h =
    let (r, q, i) = load_normal_ends db.items docs rounds is f h in
    load_all_normal rounds db.items docs db.global r s q i

-- `LoadTable` ended in an error, with these items in place and the levels of before.
abbrev pub IsPartial : {E : Type 0} → List Item → Tables → Option (LoadError E) × Tables → Type 0
IsPartial docs s (none, s') = ⊥
IsPartial docs s (some _, s') = HasItems docs s'.items × (s'.level_of_items ≡ s.level_of_items)

module _ {E : Type 0} (rounds : ℕ) (db : Database E) (docs : List Item) (s : Tables) (e : E)
    (sort_slice : List (AfterLoadFuncInfo Tables (TableError E))
      → List (AfterLoadFuncInfo Tables (TableError E))) where
  abbrev load_table_as :
      Result E Global
      → Option (Result (TableError E) (List Item))
      → Option (LoadError (TableError E)) × Tables
  load_table_as g r =
      load_table sort_slice
        (record (game_registry rounds) {
          load_func_map = ("Global", global_load_func rounds) ∷ ("Item", read_as r) ∷ [];
        })
        (some (from_global db.items g)) ("Item" ∷ "Global" ∷ []) s

  load_table_as-IsPartial : IsPartial docs s (load_table_as (err e) (some (ok docs)))
  unfolding load_table run_each select_tables lookup
  load_table_as-IsPartial = (made-IsTable docs, refl)

  -- When the items are loaded and the global table, named after them, cannot be, `LoadTable` ends in
  -- an error with the new items in place, grouped by the levels of the old ones.
  load_table-IsPartial :
      load_normal db.items rounds [] ≡ some (ok docs)
      → db.global ≡ err e
      → IsPartial docs s
          (load_table sort_slice (game_registry rounds) (some db) ("Item" ∷ "Global" ∷ []) s)
  unfolding load_table run_each select_tables lookup
  load_table-IsPartial q g =
      subst (λ r. IsPartial docs s (load_table_as db.global r)) (sym q)
        (subst (λ x. IsPartial docs s (load_table_as x (some (ok docs)))) (sym g)
          load_table_as-IsPartial)
