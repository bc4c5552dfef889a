-- ===== src/Model/Modules.antt =====
-- A model made of modules (internal/infra/actor/model/model.go).
--
-- `actor.Modules`, the registry that creates and holds the modules, is code of a library and so a
-- parameter. The collector keeps pointers to modules: what it stores of a module is its key.
use Prim.Native.String.{String}
use ggs.Prelude.{
  ℕ, ◌≡◌, ◌⊎◌, Bool, true, false, Option, none, some, List, [], ◌∷◌, arith, if◌then◌else◌,
  Option-cases, inl, inr,
}
use ggs.Prelude.Map.{string_eq, lookup}
use ggs.Model.Dirty.{Dirties, set_dirty, is_dirty, new_dirties, release, set_dirty_effect}

-- `GetModule(key, autoCreate)`, and `Release`.
pub record ModuleRegistry : Type 1 where
  pub Modules : Type 0
  pub Module : Type 0
  pub new_modules : Modules
  pub get_module : String → Bool → Modules → Option Module × Modules
  pub release_modules : Modules → Modules
  -- The path of a key in the document: the tag of the modules, a dot, and the key.
  pub path_of : String → String

-- Asking for a module without creating it changes nothing, and paths tell keys apart.
pub record IsRegistry (r : ModuleRegistry) : Type 0 where
  pub get_only : (k : String) (m : r.Modules) → (r.get_module k false m).1 ≡ m
  pub path_of-injective : (j k : String) → r.path_of j ≡ r.path_of k → j ≡ k

module _ (r : ModuleRegistry) where
  open r use {Modules, Module, get_module}

  pub record ModelWithModules : Type 0 where
    pub dirties : Dirties String
    pub id : ℕ  -- the key of the document
    pub modules : Modules

  abbrev pub new_model : ℕ → ModelWithModules
  new_model id = record { dirties = new_dirties; id = id; modules = r.new_modules }

  -- `GetModule`
  unfoldable pub get_module_of : String → Bool → ModelWithModules → Option Module × ModelWithModules
  get_module_of k create m =
      let (found, modules) = get_module k create m.modules in
      (found, record m { modules = modules })

  unfoldable pub mark : String → Option Module → ModelWithModules → Option ModelWithModules
  mark k none m = some m
  mark k (some _) m = elim (set_dirty (r.path_of k) k m.dirties) [
    | none ↦ none
    | some d ↦ some (record m { dirties = d })
  ]

  -- `SetDirtyModule`; `none` is the panic of a released collector.
  unfoldable pub set_dirty_module : String → ModelWithModules → Option ModelWithModules
  unfolding mark get_module_of
  set_dirty_module k m = let (found, m') = get_module_of k false m in mark k found m'

  -- The loop of `SetDirtyModules` over its keys.
  unfoldable pub set_dirty_each : List String → ModelWithModules → Option ModelWithModules
  set_dirty_each [] m = some m
  set_dirty_each (k ∷ ks) m = elim (set_dirty_module k m) [
    | none ↦ none
    | some m' ↦ set_dirty_each ks m'
  ]

  abbrev pub release_model : ModelWithModules → ModelWithModules
  release_model m = record m { dirties = release m.dirties; modules = r.release_modules m.modules }

  -- Which modules the collector will save.
  abbrev pub marked : String → ModelWithModules → Option String
  marked k m = elim m.dirties.dirties [ none ↦ none | some t ↦ lookup (r.path_of k) t ]

  -- Marking a module that exists records it, keeps what was recorded of every other module, and
  -- makes the model dirty; a module that does not exist changes nothing.
  set_dirty_module_effect :
      (law : IsRegistry r) (k j : String) (m m' : ModelWithModules)
      → set_dirty_module k m ≡ some m'
      → (((get_module k false m.modules).0 ≡ none) × (m' ≡ m))
        ⊎ ((marked j m'
              ≡ (if string_eq.beq (r.path_of k) (r.path_of j) then some k else marked j m))
            × (is_dirty m'.dirties ≡ (true, m.dirties.all))
            × (m'.modules ≡ m.modules))
  unfolding set_dirty_module
  set_dirty_module_effect law k j m m' h =
      let same : (get_module k false m.modules).1 ≡ m.modules = law.get_only k m.modules in
      elim (Option-cases (get_module k false m.modules).0) [
        | inl e ↦ inl (e, ground arith)
        | inr (x, e) ↦ elim (Option-cases (set_dirty (r.path_of k) k m.dirties)) [
          | inl f ↦ ground arith
          | inr (d, f) ↦
              let (t, t', p, q, l, y) =
                set_dirty_effect (r.path_of k) (r.path_of j) k m.dirties d f in
              let grown : m'.dirties ≡ d = ground arith in
              inr (ground arith, rw grown y, ground arith)
        ]
      ]
