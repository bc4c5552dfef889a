-- ===== src/GameData/Samples.antt =====
-- Two items and a few registrations, and the theorems at work on them.
use mathlib.Core.List.Memᴰ.{head, tail}
use ggs.Prelude.{
  zero, suc, ℕ, ◌+◌, ◌≡◌, refl, none, some, List, [], ◌∷◌, take, drop, arith, inr, Result, ok,
}
use ggs.Prelude.Int.{ℤ, pos, negsuc}
use Prim.Native.String.{String}
use ggs.GameData.{AfterLoadFuncInfo, Registry, load_all}
use ggs.GameData.Insert.{IsSorted, with_priority}
use ggs.GameData.Order.{register_all, no_registry, register_all-IsStable}
use ggs.GameData.Tables.{
  Item, Global, Tables, Collection, TableError, Database, load_batches, load_normal,
  load_batch_size,
}
use ggs.GameData.Loaded.{IsCollection, AreOf, IsLoaded, load_normal_ends}
use ggs.GameData.Levels.{game_registry, IsLoading, load_all-IsLoading}

abbrev sample_func : String → ℤ → AfterLoadFuncInfo ℕ ℕ
sample_func name p = record { table_name = name; f = λ s. (none, s + 1); priority = p }

abbrev sample_funcs : List (AfterLoadFuncInfo ℕ ℕ)
sample_funcs =
    sample_func "Item" (pos 1)
    ∷ sample_func "Skill" (negsuc 0)
    ∷ sample_func "Task" (pos 1)
    ∷ sample_func "Shop" (pos 0)
    ∷ []

register_all-IsStable_example :
    (r : Registry ℕ ℕ ℕ) × (register_all sample_funcs no_registry ≡ ok r)
    × IsSorted r.after_load_funcs
    × ((p : ℤ) → with_priority p r.after_load_funcs ≡ with_priority p sample_funcs)
register_all-IsStable_example =
    register_all-IsStable sample_funcs
      ((refl, (refl, (refl, tt))), ((refl, (refl, tt)), ((refl, tt), (tt, tt))))

abbrev sample_item : ℕ → ℕ → Item
sample_item id level = record {
  id = id;
  name = [];
  kind = 1;
  sub_type = 2;
  icon = [];
  level = level;
}

abbrev sample_items : List Item
sample_items = sample_item 7 1 ∷ sample_item 8 2 ∷ sample_item 9 1 ∷ []

abbrev sample_collection : Collection ℕ Item
sample_collection skip limit = ok (ok (take limit (drop skip sample_items)))

AreOf-take : (docs : List Item) (n : ℕ) (l : List Item) → AreOf docs l → AreOf docs (take n l)
AreOf-take docs zero l h = tt
AreOf-take docs (suc n) [] h = h
AreOf-take docs (suc n) (x ∷ l) h = (h.0, AreOf-take docs n l h.1)

AreOf-drop : (docs : List Item) (n : ℕ) (l : List Item) → AreOf docs l → AreOf docs (drop n l)
AreOf-drop docs zero l h = h
AreOf-drop docs (suc n) [] h = h
AreOf-drop docs (suc n) (x ∷ l) h = AreOf-drop docs n l h.1

sample_items-AreOf : AreOf sample_items sample_items
sample_items-AreOf = (head refl, (tail (head refl), (tail (tail (head refl)), tt)))

sample_collection-IsCollection : IsCollection sample_collection sample_items
sample_collection-IsCollection skip limit = inr (
  take limit (drop skip sample_items),
  refl,
  AreOf-take sample_items limit (drop skip sample_items)
      (AreOf-drop sample_items skip sample_items sample_items-AreOf),
  refl,
)

load_normal_ends_example :
    (r : Result (TableError ℕ) (List Item)) × (load_normal sample_collection 1 [] ≡ some r)
    × IsLoaded load_batch_size sample_collection sample_items r
load_normal_ends_example =
    load_normal_ends sample_collection sample_items 1 sample_collection-IsCollection (omega arith)
      (omega arith)

abbrev sample_global : Global
sample_global = record { first = pos 1; second = pos 2; init_items = (pos 7, pos 3) ∷ [] }

abbrev sample_database : Result ℕ Global → Database ℕ
sample_database g = record { items = sample_collection; global = g }

abbrev no_tables : Tables
no_tables = record { global = none; items = none; level_of_items = none }

load_all-IsLoading_example :
    IsLoading sample_items no_tables
      (load_all (game_registry 1) (some (sample_database (ok sample_global))) no_tables)
load_all-IsLoading_example =
    load_all-IsLoading 1 (sample_database (ok sample_global)) sample_items no_tables
      sample_collection-IsCollection (omega arith) (omega arith)

sample_read : load_normal sample_collection 1 [] ≡ some (ok sample_items)
unfolding load_batches
sample_read = refl
