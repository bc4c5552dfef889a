-- ===== src/GameData/Order.antt =====
-- The order of the functions that run after loading: by priority, and of equal ones in the order of
-- their registration.
use ggs.Prelude.{
  ◌≡◌, refl, sym, ap, ◌∙◌, false, none, List, [], ◌∷◌, ◌++◌, length, append-nil, Result, ok, err,
}
use ggs.Prelude.Int.{ℤ}
use ggs.Prelude.Map.{Map, string_eq, lookup, insert, lookup-insert}
use Prim.Native.String.{String}
use ggs.GameData.{
  runs_after, AfterLoadFuncInfo, Registry, RegisterPanic, add_after_load_func,
  register_after_load_func,
}
use ggs.GameData.Insert.{
  search-Splits, IsSorted, stable_insert, runs_after-grows, insert_at-Splits,
  stable_insert-IsSorted, with_priority, with_priority-stable_insert, with_priority_cons,
}

module _ {S E : Type 0} where
  -- What a sequence of registrations leaves.
  module _ {DB : Type 0} where
    unfoldable pub register_all :
        List (AfterLoadFuncInfo S E) → Registry DB S E → Result RegisterPanic (Registry DB S E)
    register_all [] r = ok r
    register_all (info ∷ infos) r = elim (register_after_load_func info r) [
      | err e ↦ err e
      | ok r' ↦ register_all infos r'
    ]

  -- No two of the tables are the same, and none is registered yet.
  abbrev pub AreOther : String → List (AfterLoadFuncInfo S E) → Type 0
  AreOther name [] = Unit {0}
  AreOther name (x ∷ xs) = (string_eq.beq name x.table_name ≡ false) × AreOther name xs

  abbrev pub AreDistinct : List (AfterLoadFuncInfo S E) → Type 0
  AreDistinct [] = Unit {0}
  AreDistinct (x ∷ xs) = AreOther x.table_name xs × AreDistinct xs

  abbrev pub AreNew : List (AfterLoadFuncInfo S E) → Map String (AfterLoadFuncInfo S E) → Type 0
  AreNew [] m = Unit {0}
  AreNew (x ∷ xs) m = (lookup x.table_name m ≡ none) × AreNew xs m

  AreNew-insert :
      (x : AfterLoadFuncInfo S E) (xs : List (AfterLoadFuncInfo S E))
      (m : Map String (AfterLoadFuncInfo S E))
      → AreOther x.table_name xs
      → AreNew xs m
      → AreNew xs (insert x.table_name x m)
  AreNew-insert x [] m o n = tt
  AreNew-insert x (y ∷ xs) m o n =
      (lookup-insert x.table_name y.table_name x m ∙ rw o.0 n.0, AreNew-insert x xs m o.1 n.1)

module _ {DB S E : Type 0} where
  -- One registration, of a table that has no function yet.
  pub register_after_load_func_new :
      (info : AfterLoadFuncInfo S E) (r : Registry DB S E)
      → lookup info.table_name r.after_load_func_map ≡ none
      → IsSorted r.after_load_funcs
      → register_after_load_func info r
        ≡ ok (record r {
          after_load_func_map = insert info.table_name info r.after_load_func_map;
          after_load_funcs = stable_insert info r.after_load_funcs;
        })
  unfolding register_after_load_func
  register_after_load_func_new info r n s =
      let l = r.after_load_funcs in
      let (pos, e, p) = search-Splits (runs_after info l) (length l) (runs_after-grows info l s) in
      rw (register_after_load_func, n)
        (ap (add_after_load_func info r) e
          ∙ ap
              (λ l. ok (record r {
                after_load_func_map = insert info.table_name info r.after_load_func_map;
                after_load_funcs = l;
              }))
              (insert_at-Splits info l pos p))

  register_all_from :
      (infos : List (AfterLoadFuncInfo S E)) (r : Registry DB S E)
      → AreDistinct infos
      → AreNew infos r.after_load_func_map
      → IsSorted r.after_load_funcs
      → (r' : Registry DB S E) × (register_all infos r ≡ ok r')
        × IsSorted r'.after_load_funcs
        × ((p : ℤ)
            → with_priority p r'.after_load_funcs
              ≡ with_priority p r.after_load_funcs ++ with_priority p infos)
  unfolding register_all
  register_all_from [] r d n s =
      (r, refl, s, λ p. sym (append-nil (with_priority p r.after_load_funcs)))
  register_all_from (info ∷ infos) r d n s =
      let r2 = record r {
        after_load_func_map = insert info.table_name info r.after_load_func_map;
        after_load_funcs = stable_insert info r.after_load_funcs;
      } in
      let (r', e, t, w) =
        register_all_from infos r2 d.1 (AreNew-insert info infos r.after_load_func_map d.0 n.1)
          (stable_insert-IsSorted info r.after_load_funcs s) in
      (
        r',
        rw (register_all, register_after_load_func_new info r n.0 s) e,
        t,
        λ p.
            w p
            ∙ ap (λ l. l ++ with_priority p infos)
                (with_priority-stable_insert p info r.after_load_funcs s)
            ∙ with_priority_cons p info (with_priority p r.after_load_funcs) infos,
      )

abbrev pub no_registry : {DB S E : Type 0} → Registry DB S E
no_registry = record {
  load_funcs = [];
  load_func_map = [];
  after_load_funcs = [];
  after_load_func_map = [];
}

AreNew-nil : {S E : Type 0} (infos : List (AfterLoadFuncInfo S E)) → AreNew infos []
unfolding lookup
AreNew-nil [] = tt
AreNew-nil (x ∷ infos) = (refl, AreNew-nil infos)

-- Registering functions of distinct tables, from an empty registry, ends and does not panic. The list
-- it leaves is ordered by priority, and those of one priority stand in it in the order of their
-- registration.
pub register_all-IsStable :
    {DB S E : Type 0} (infos : List (AfterLoadFuncInfo S E))
    → AreDistinct infos
    → (r : Registry DB S E) × (register_all infos no_registry ≡ ok r)
      × IsSorted r.after_load_funcs
      × ((p : ℤ) → with_priority p r.after_load_funcs ≡ with_priority p infos)
register_all-IsStable infos d = register_all_from infos no_registry d (AreNew-nil infos) tt
