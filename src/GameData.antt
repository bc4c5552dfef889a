-- ===== src/GameData.antt =====
-- The loading of the game's configuration tables (internal/gdconf/gdconf_load.go): the registered
-- functions, and the order in which they run.
--
-- `S` is what the functions change: the tables in memory. A function that is registered twice panics.
pub mod Tables
pub mod Insert
pub mod Order
pub mod Loaded
pub mod Levels
mod Samples
use ggs.Prelude.{
  ℕ, zero, suc, ◌+◌, ◌/◌, Bool, true, false, Option, none, some, List, [], ◌∷◌, ◌++◌, ltb, length,
  take, drop, get_or, if◌then◌else◌, Result, ok, err,
}
use ggs.Prelude.Int.{ℤ, ltb_ℤ}
use ggs.Prelude.Map.{Map, string_eq, lookup, insert}
use Prim.Native.String.{String}

-- `sort.Search(n, f)` of Go's library, with a round for each candidate and one to see the end.
unfoldable pub search_from : (ℕ → Bool) → ℕ → ℕ → ℕ → Option ℕ
search_from f zero i j = none
search_from f (suc rounds) i j =
    let h = (i + j) / 2 in
    let above = search_from f rounds (suc h) j in
    let below = search_from f rounds i h in
    if ltb i j then (if f h then below else above) else some i

abbrev pub search : ℕ → (ℕ → Bool) → Option ℕ
search n f = search_from f (suc n) 0 n

-- `slices.Insert(l, pos, x)`
abbrev pub insert_at {ℓ} : {A : Type ℓ} → ℕ → A → List A → List A
insert_at pos x l = take pos l ++ (x ∷ drop pos l)

-- The last is a search that does not end.
pub data RegisterPanic : Type 0 where
  already_registered : String → RegisterPanic
  unfinished : RegisterPanic

pub record LoadFuncInfo (DB S E : Type 0) : Type 0 where
  pub table_name : String
  pub f : DB → S → Option E × S

pub record AfterLoadFuncInfo (S E : Type 0) : Type 0 where
  pub table_name : String
  pub f : S → Option E × S
  pub priority : ℤ

-- `loadFuncs`, `loadFuncMap`, `afterLoadFuncs` and `afterLoadFuncMap`
pub record Registry (DB S E : Type 0) : Type 0 where
  pub load_funcs : List (LoadFuncInfo DB S E)
  pub load_func_map : Map String (LoadFuncInfo DB S E)
  pub after_load_funcs : List (AfterLoadFuncInfo S E)
  pub after_load_func_map : Map String (AfterLoadFuncInfo S E)

pub data LoadError (E : Type 0) : Type 0 where
  db_is_nil table_name_is_empty : LoadError E
  not_registered : String → LoadError E
  load after_load : String → E → LoadError E

module _ {S E : Type 0} where
  -- The test that the search is for.
  abbrev pub runs_after : AfterLoadFuncInfo S E → List (AfterLoadFuncInfo S E) → ℕ → Bool
  runs_after info l i = ltb_ℤ info.priority (get_or l i info).priority

  -- `runAfterLoadFunc`
  abbrev pub run_after_load_func : AfterLoadFuncInfo S E → S → Option (LoadError E) × S
  run_after_load_func info s =
      let (e, s') = info.f s in
      (elim e [ none ↦ none | some x ↦ some (after_load info.table_name x) ], s')

  -- One after the other, until an error.
  unfoldable pub run_each :
      {A : Type 0} → (A → S → Option (LoadError E) × S) → List A → S → Option (LoadError E) × S
  run_each run [] s = (none, s)
  run_each run (x ∷ xs) s =
      let (e, s') = run x s in
      let rest = run_each run xs s' in elim e [ none ↦ rest | some x ↦ (some x, s') ]

  -- What follows when no error came.
  abbrev pub then_run :
      (S → Option (LoadError E) × S) → Option (LoadError E) × S → Option (LoadError E) × S
  then_run f (none, s) = f s
  then_run f (some e, s) = (some e, s)

  abbrev pub run_after_load_funcs : List (AfterLoadFuncInfo S E) → S → Option (LoadError E) × S
  run_after_load_funcs = run_each run_after_load_func

  -- The functions of the named tables, or the first name that has none.
  abbrev pub after_of :
      Option (AfterLoadFuncInfo S E) → List (AfterLoadFuncInfo S E) → List (AfterLoadFuncInfo S E)
  after_of none rest = rest
  after_of (some info) rest = info ∷ rest

module _ {DB S E : Type 0} where
  -- `registerLoadFunc`
  unfoldable pub register_load_func :
      LoadFuncInfo DB S E → Registry DB S E → Result RegisterPanic (Registry DB S E)
  register_load_func info r = elim (lookup info.table_name r.load_func_map) [
    | some _ ↦ err (already_registered info.table_name)
    | none ↦ ok (record r {
      load_func_map = insert info.table_name info r.load_func_map;
      load_funcs = r.load_funcs ++ (info ∷ []);
    })
  ]

  abbrev pub add_after_load_func :
      AfterLoadFuncInfo S E → Registry DB S E → Option ℕ → Result RegisterPanic (Registry DB S E)
  add_after_load_func info r none = err unfinished
  add_after_load_func info r (some pos) = ok (record r {
    after_load_func_map = insert info.table_name info r.after_load_func_map;
    after_load_funcs = insert_at pos info r.after_load_funcs;
  })

  -- `RegisterAfterLoadFunc`
  unfoldable pub register_after_load_func :
      AfterLoadFuncInfo S E → Registry DB S E → Result RegisterPanic (Registry DB S E)
  register_after_load_func info r = elim (lookup info.table_name r.after_load_func_map) [
    | some _ ↦ err (already_registered info.table_name)
    | none ↦
        add_after_load_func info r
          (search (length r.after_load_funcs) (runs_after info r.after_load_funcs))
  ]

  -- `runLoadFunc`
  abbrev pub run_load_func : LoadFuncInfo DB S E → DB → S → Option (LoadError E) × S
  run_load_func info db s =
      let (e, s') = info.f db s in
      (elim e [ none ↦ none | some x ↦ some (load info.table_name x) ], s')

  abbrev pub run_load_funcs : List (LoadFuncInfo DB S E) → DB → S → Option (LoadError E) × S
  run_load_funcs infos db = run_each (λ info. run_load_func info db) infos

  -- `Load`, with `none` for a nil database.
  unfoldable pub load_all : Registry DB S E → Option DB → S → Option (LoadError E) × S
  load_all r none s = (some db_is_nil, s)
  load_all r (some db) s =
      then_run (run_after_load_funcs r.after_load_funcs) (run_load_funcs r.load_funcs db s)

  unfoldable pub select_tables :
      Registry DB S E
      → List String
      → Result (LoadError E) (List (LoadFuncInfo DB S E) × List (AfterLoadFuncInfo S E))
  select_tables r [] = ok ([], [])
  select_tables r (name ∷ names) =
      let rest = select_tables r names in
      elim (lookup name r.load_func_map) [
        | none ↦ err (not_registered name)
        | some info ↦ elim rest [
          | err e ↦ err e
          | ok (infos, afters) ↦
              ok (info ∷ infos, after_of (lookup name r.after_load_func_map) afters)
        ]
      ]

  -- `LoadTable`. `sort_slice` is `sort.Slice` by priority, which may order equal ones in any way.
  module _ (sort_slice : List (AfterLoadFuncInfo S E) → List (AfterLoadFuncInfo S E)) where
    abbrev pub load_selected :
        DB
        → S
        → Result (LoadError E) (List (LoadFuncInfo DB S E) × List (AfterLoadFuncInfo S E))
        → Option (LoadError E) × S
    load_selected db s (err e) = (some e, s)
    load_selected db s (ok (infos, afters)) =
        then_run (run_after_load_funcs (sort_slice afters)) (run_load_funcs infos db s)

    unfoldable pub load_table :
        Registry DB S E → Option DB → List String → S → Option (LoadError E) × S
    load_table r none names s = (some db_is_nil, s)
    load_table r (some db) [] s = (some table_name_is_empty, s)
    load_table r (some db) (name ∷ names) s = load_selected db s (select_tables r (name ∷ names))
