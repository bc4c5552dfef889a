-- ===== src/Model/Samples.antt =====
-- A model of two modules, and a theorem at work on it.
use Prim.Native.String.{String}
use ggs.Prelude.{ℕ, ◌≡◌, refl, false, some, [], ◌∷◌}
use ggs.Prelude.Map.{Map, string_eq, lookup, insert}
use ggs.Model.Dirty.{set_dirty}
use ggs.Model.Modules.{
  ModuleRegistry, IsRegistry, ModelWithModules, set_dirty_module, mark, get_module_of,
}

abbrev sample_registry : ModuleRegistry
sample_registry = record {
  Modules = Map String ℕ;
  Module = ℕ;
  new_modules = [];
  get_module = λ k create m. (lookup k m, m);
  release_modules = λ m. [];
  path_of = λ k. k;
}

sample_registry-IsRegistry : IsRegistry sample_registry
sample_registry-IsRegistry = record { get_only = λ k m. refl; path_of-injective = λ j k h. h }

abbrev two_modules : ModelWithModules sample_registry
two_modules = record {
  dirties = record { dirties = some []; all = false };
  id = 5;
  modules = ("base", 1) ∷ ("items", 2) ∷ [];
}

abbrev items_marked : ModelWithModules sample_registry
items_marked = record {
  dirties = record { dirties = some (("items", "items") ∷ []); all = false };
  id = 5;
  modules = ("base", 1) ∷ ("items", 2) ∷ [];
}

set_dirty_module_test : set_dirty_module sample_registry "items" two_modules ≡ some items_marked
unfolding set_dirty_module mark get_module_of set_dirty lookup insert
set_dirty_module_test = refl
