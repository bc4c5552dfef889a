-- ===== src/Mongo/Indexes.antt =====
-- The register of indexes, and their creation (internal/infra/mongo/models/indexes.go).
--
-- An index is the driver's and a parameter, and so is its creation.
use mathlib.Core.Path.{subst}
use ggs.Prelude.{
  ◌≡◌, refl, sym, ap, ◌∙◌, ◌⊎◌, Bool, true, Option, none, some, List, [], ◌∷◌, ◌++◌, Option-cases,
  if◌then◌else◌, Result, ok, err, arith, inl, inr,
}
use ggs.Prelude.Map.{Map, string_eq, lookup, insert}
use Prim.Native.String.{String}

pub data IndexPanic : Type 0 where
  already_registered is_empty : String → IndexPanic

pub data IndexError (E : Type 0) : Type 0 where
  ctx_is_nil cli_is_nil db_is_empty : IndexError E
  indexes_empty : String → IndexError E
  create_failed : String → E → IndexError E

-- `registerIndexes`
unfoldable pub register_indexes :
    {I : Type 0} → String → List I → Map String (List I) → Result IndexPanic (Map String (List I))
register_indexes col indexes m = elim (lookup col m) [
  | some _ ↦ err (already_registered col)
  | none ↦ elim indexes [ [] ↦ err (is_empty col) | i ∷ is ↦ ok (insert col (i ∷ is) m) ]
]

-- `GetIndexes`, where a missing key gives no index.
abbrev pub or_none : {I : Type 0} → Option (List I) → List I
or_none none = []
or_none (some is) = is

abbrev pub get_indexes : {I : Type 0} → String → Map String (List I) → List I
get_indexes col m = or_none (lookup col m)

-- The indexes of every collection, or the first collection without any.
unfoldable pub collect_indexes :
    {I : Type 0} → Map String (List I) → List String → Result String (List (String × List I))
collect_indexes m [] = ok []
collect_indexes m (col ∷ cols) =
    let rest = collect_indexes m cols in
    elim (get_indexes col m) [
      | [] ↦ err col
      | i ∷ is ↦ elim rest [ err c ↦ err c | ok all ↦ ok ((col, i ∷ is) ∷ all) ]
    ]

nonempty_list : {I : Type 0} {i : I} {is : List I} → i ∷ is ≡ [] → ⊥
nonempty_list h = absurd (ground arith)

module _ {I E S : Type 0} (create_many : String → List I → S → Option E × S) where
  unfoldable pub create_each : List (String × List I) → S → Option (IndexError E) × S
  create_each [] s = (none, s)
  create_each ((col, is) ∷ rest) s =
      let (e, s') = create_many col is s in
      let later = create_each rest s' in
      elim e [ some x ↦ (some (create_failed col x), s') | none ↦ later ]

  abbrev pub create_collected :
      Result String (List (String × List I)) → S → Option (IndexError E) × S
  create_collected (err col) s = (some (indexes_empty col), s)
  create_collected (ok all) s = create_each all s

  -- `EnsureIndexes`: whether there is a context, a client and a database.
  unfoldable pub ensure_indexes :
      Map String (List I) → Bool → Bool → Bool → List String → S → Option (IndexError E) × S
  ensure_indexes m ctx cli db cols s =
      if ctx
      then (if cli
          then (if db then create_collected (collect_indexes m cols) s else (some db_is_empty, s))
          else (some cli_is_nil, s))
      else (some ctx_is_nil, s)

  -- Every collection has an index.
  abbrev pub AreRegistered : Map String (List I) → List String → Type 0
  AreRegistered m [] = Unit {0}
  AreRegistered m (col ∷ cols) = (get_indexes col m ≡ [] → ⊥) × AreRegistered m cols

  -- The indexes of the collections are created, one after the other and without an error, from a state of
  -- the database to another.
  pub data Creates (m : Map String (List I)) : List String → S → S → Type 0 where
    nothing : {s : S} → Creates m [] s s
    creates :
        {s s' : S} (col : String) (cols : List String)
        → (create_many col (get_indexes col m) s).0 ≡ none
        → Creates m cols (create_many col (get_indexes col m) s).1 s'
        → Creates m (col ∷ cols) s s'

  -- A creation fails: the collections in front have their indexes, and nothing is tried behind.
  pub record IsFailed (m : Map String (List I)) (cols : List String) (s : S)
      (r : Option (IndexError E) × S) : Type 0 where
    pub before : List String
    pub col : String
    pub after : List String
    pub reached : S
    pub error : E
    pub split : cols ≡ before ++ (col ∷ after)
    pub created : Creates m before s reached
    pub failure : (create_many col (get_indexes col m) reached).0 ≡ some error
    pub answer :
        r ≡ (some (create_failed col error), (create_many col (get_indexes col m) reached).1)

  -- The first collection without an index.
  pub record IsRefused (m : Map String (List I)) (cols : List String) (col : String) : Type 0 where
    pub before : List String
    pub after : List String
    pub split : cols ≡ before ++ (col ∷ after)
    pub others : AreRegistered m before
    pub is_missing : get_indexes col m ≡ []

  abbrev pub with_indexes : Map String (List I) → List String → List (String × List I)
  with_indexes m [] = []
  with_indexes m (col ∷ cols) = (col, get_indexes col m) ∷ with_indexes m cols

  collect_cases :
      (m : Map String (List I)) (cols : List String)
      → ((col : String) × (collect_indexes m cols ≡ err col) × IsRefused m cols col)
        ⊎ ((collect_indexes m cols ≡ ok (with_indexes m cols)) × AreRegistered m cols)
  unfolding collect_indexes
  collect_cases m [] = inr (refl, tt)
  collect_cases m (col ∷ cols) = by_first (get_indexes col m) refl (collect_cases m cols)
    where
      by_first :
          (is : List I)
          → get_indexes col m ≡ is
          → ((c : String) × (collect_indexes m cols ≡ err c) × IsRefused m cols c)
            ⊎ ((collect_indexes m cols ≡ ok (with_indexes m cols)) × AreRegistered m cols)
          → ((c : String) × (collect_indexes m (col ∷ cols) ≡ err c) × IsRefused m (col ∷ cols) c)
            ⊎ ((collect_indexes m (col ∷ cols) ≡ ok (with_indexes m (col ∷ cols)))
                × AreRegistered m (col ∷ cols))
      by_first [] e r = inl (
        col,
        rw (collect_indexes, e) refl,
        record { before = []; after = cols; split = refl; others = tt; is_missing = e },
      )
      by_first (i ∷ is) e (inl (c, f, g)) = inl (
        c,
        rw (collect_indexes, e, f) refl,
        record {
          before = col ∷ g.before;
          after = g.after;
          split = ap (◌∷◌ col) g.split;
          others = ((λ h. nonempty_list (sym e ∙ h)), g.others);
          is_missing = g.is_missing;
        },
      )
      by_first (i ∷ is) e (inr (f, g)) =
          inr (rw (collect_indexes, e, f) refl, ((λ h. nonempty_list (sym e ∙ h)), g))

  -- How creating ends.
  abbrev pub Ended : Map String (List I) → List String → S → Option (IndexError E) × S → Type 0
  Ended m cols s r = ((s' : S) × (r ≡ (none, s')) × Creates m cols s s') ⊎ IsFailed m cols s r

  create_each-Ended :
      (m : Map String (List I)) (cols : List String) (s : S)
      → Ended m cols s (create_each (with_indexes m cols) s)
  unfolding create_each
  create_each-Ended m [] s = inl (s, refl, nothing)
  create_each-Ended m (col ∷ cols) s =
      let s1 = (create_many col (get_indexes col m) s).1 in
      elim (Option-cases (create_many col (get_indexes col m) s).0) [
        | inr (x, e) ↦ inr (record {
          before = [];
          col = col;
          after = cols;
          reached = s;
          error = x;
          split = refl;
          created = nothing;
          failure = e;
          answer = rw (create_each, e) refl;
        })
        | inl e ↦
            let later : create_each (with_indexes m (col ∷ cols)) s
                ≡ create_each (with_indexes m cols) s1 =
              rw (create_each, e) refl in
            elim (create_each-Ended m cols s1) [
              | inl (s', r, c) ↦ inl (s', later ∙ r, creates col cols e c)
              | inr f ↦ inr (record {
                before = col ∷ f.before;
                col = f.col;
                after = f.after;
                reached = f.reached;
                error = f.error;
                split = ap (◌∷◌ col) f.split;
                created = creates col f.before e f.created;
                failure = f.failure;
                answer = later ∙ f.answer;
              })
            ]
      ]

  -- With a context, a client and a database, `EnsureIndexes` refuses the first collection that has no
  -- registered index, and then creates nothing. Else it creates the indexes of all in their order, and
  -- reports no error, or reports the first creation that fails: those in front are created, and none
  -- behind is tried.
  pub ensure_indexes_cases :
      (m : Map String (List I)) (cols : List String) (s : S)
      → ((col : String) × IsRefused m cols col
          × (ensure_indexes m true true true cols s ≡ (some (indexes_empty col), s)))
        ⊎ (AreRegistered m cols × Ended m cols s (ensure_indexes m true true true cols s))
  unfolding ensure_indexes
  ensure_indexes_cases m cols s = elim (collect_cases m cols) [
    | inl (col, e, f) ↦ inl (col, f, ap (λ r. create_collected r s) e)
    | inr (e, g) ↦
        inr (
          g,
          subst (λ r. Ended m cols s (create_collected r s)) (sym e) (create_each-Ended m cols s),
        )
  ]
