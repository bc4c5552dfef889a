-- ===== src/Lifecycle/Register.antt =====
-- Which callbacks an actor gets when handlers are registered for distinct categories.
use mathlib.Core.List.Memᴰ.{Memᴰ, head, tail}
use ggs.Prelude.{
  ==_refl, ℕ, ◌≡◌, refl, sym, ap, ◌∙◌, true, false, Option, none, some, List, [], ◌∷◌, ◌==◌, ==_iff,
  if◌then◌else◌, Bool-cases, inl, inr, arith,
}
use ggs.Prelude.Map.{Map, nat_eq, lookup, insert, lookup-insert}
use ggs.Lifecycle.{
  Handler, plain, client, callbacks, wrapped, register_handler, register_all, start_by, stop_by,
  connect, disconnect, on_start, on_stop, on_connected, on_disconnected,
}

module _ {A E : Type 0} where
  -- The handler that a list of registrations has for a category.
  abbrev pub handler_of : ℕ → List (ℕ × Handler A E) → Option (Handler A E)
  handler_of category [] = none
  handler_of category ((c, h) ∷ rest) =
      let later = handler_of category rest in if c == category then some h else later

  -- No category of the list is registered, or twice in the list.
  abbrev pub AreOther : ℕ → List (ℕ × Handler A E) → Type 0
  AreOther category [] = Unit {0}
  AreOther category ((c, h) ∷ rest) = ((category == c) ≡ false) × AreOther category rest

  abbrev pub AreDistinct : List (ℕ × Handler A E) → Type 0
  AreDistinct [] = Unit {0}
  AreDistinct ((c, h) ∷ rest) = AreOther c rest × AreDistinct rest

  abbrev pub AreNew : List (ℕ × Handler A E) → Map ℕ (Handler A E) → Type 1
  AreNew [] m = Unit {1}
  AreNew ((c, h) ∷ rest) m = (lookup c m ≡ none) × AreNew rest m

  AreNew-insert :
      (c : ℕ) (h : Handler A E) (rest : List (ℕ × Handler A E)) (m : Map ℕ (Handler A E))
      → AreOther c rest
      → AreNew rest m
      → AreNew rest (insert c h m)
  AreNew-insert c h [] m o n = tt
  AreNew-insert c h ((d, k) ∷ rest) m o n =
      (lookup-insert c d h m ∙ rw o.0 n.0, AreNew-insert c h rest m o.1 n.1)

  AreNew-nil : (hs : List (ℕ × Handler A E)) → AreNew hs []
  unfolding lookup
  AreNew-nil [] = tt
  AreNew-nil ((c, h) ∷ rest) = (refl, AreNew-nil rest)

  abbrev or_else : Option (Handler A E) → Option (Handler A E) → Option (Handler A E)
  or_else none o = o
  or_else (some h) o = some h

  other_handler :
      (c : ℕ) (rest : List (ℕ × Handler A E)) → AreOther c rest → handler_of c rest ≡ none
  other_handler c [] o = refl
  other_handler c ((d, k) ∷ rest) o = ground (arith, o.0, other_handler c rest o.1)

  joined :
      (c : ℕ) (h : Handler A E) (rest : List (ℕ × Handler A E)) (m : Map ℕ (Handler A E))
      → AreOther c rest
      → (category : ℕ)
      → or_else (handler_of category rest) (lookup category (insert c h m))
        ≡ or_else (handler_of category ((c, h) ∷ rest)) (lookup category m)
  joined c h rest m d category = elim (Bool-cases (c == category)) [
    | inl e ↦
        let q : c ≡ category = (==_iff c category).0 e in
        let o : handler_of category rest ≡ none =
          ap (λ x. handler_of x rest) (sym q) ∙ other_handler c rest d in
        let l : lookup category (insert c h m) ≡ some h =
          lookup-insert c category h m ∙ rw e refl in
        rw (o, e, l) refl
    | inr e ↦
        let l : lookup category (insert c h m) ≡ lookup category m =
          lookup-insert c category h m ∙ rw e refl in
        rw (e, l) refl
  ]

  register_all_from :
      (hs : List (ℕ × Handler A E)) (m : Map ℕ (Handler A E))
      → AreDistinct hs
      → AreNew hs m
      → (m' : Map ℕ (Handler A E)) × (register_all hs m ≡ some m')
        × ((category : ℕ)
            → lookup category m' ≡ or_else (handler_of category hs) (lookup category m))
  unfolding register_all register_handler
  register_all_from [] m d n = (m, refl, λ category. refl)
  register_all_from ((c, h) ∷ rest) m d n =
      let (m', e, f) =
        register_all_from rest (insert c h m) d.1 (AreNew-insert c h rest m d.0 n.1) in
      (
        m',
        rw (register_all, register_handler, n.0) e,
        λ category. f category ∙ joined c h rest m d.0 category,
      )

  or_else-none : (o : Option (Handler A E)) → or_else o none ≡ o
  or_else-none none = refl
  or_else-none (some h) = refl

  other_member :
      (category c : ℕ) (h : Handler A E) (hs : List (ℕ × Handler A E))
      → AreOther category hs
      → Memᴰ (c, h) hs
      → (category == c) ≡ false
  other_member category c h [] o i = elim i [ ]
  other_member category c h (x ∷ rest) o (head e) = ap (λ y. category == y.0) e ∙ o.0
  other_member category c h (x ∷ rest) o (tail i) = other_member category c h rest o.1 i

  handler_of_member :
      (category : ℕ) (h : Handler A E) (hs : List (ℕ × Handler A E))
      → AreDistinct hs
      → Memᴰ (category, h) hs
      → handler_of category hs ≡ some h
  handler_of_member category h [] d i = elim i [ ]
  handler_of_member category h ((c, k) ∷ rest) d (head e) =
      let same : (c == category) ≡ true = ap (λ y. c == y.0) e ∙ ==_refl c in
      rw same (ap (λ y. some y.1) (sym e))
  handler_of_member category h ((c, k) ∷ rest) d (tail i) =
      rw (other_member c category h rest d.0 i) (handler_of_member category h rest d.1 i)

  -- What becomes of an actor of the category and of the handler's type.
  abbrev pub IsServed :
      Map ℕ (Handler A E) → ℕ → (h : Handler A E) → A → (callbacks h).Actor → Type 0
  IsServed m category (plain c) a x =
      (on_start m category a ≡ some (c.on_start x))
      × (on_stop m category a ≡ some (c.on_stop x))
      × (on_connected m category a ≡ none)
      × (on_disconnected m category a ≡ none)
  IsServed m category (client c) a x =
      (on_start m category a ≡ some (c.base.on_start x))
      × (on_stop m category a ≡ some (c.base.on_stop x))
      × (on_connected m category a ≡ some (c.on_connected x))
      × (on_disconnected m category a ≡ some (c.on_disconnected x))

  lookup-IsServed :
      (m : Map ℕ (Handler A E)) (category : ℕ) (h : Handler A E) (a : A) (x : (callbacks h).Actor)
      → lookup category m ≡ some h
      → (callbacks h).as_actor a ≡ some x
      → IsServed m category h a x
  unfolding on_start on_stop on_connected on_disconnected
  lookup-IsServed m category (plain c) a x l e = (
    ap (λ o. start_by o a) l ∙ ap (λ o. wrapped o c.on_start) e,
    ap (λ o. stop_by o a) l ∙ ap (λ o. wrapped o c.on_stop) e,
    ap (λ o. connect o a) l,
    ap (λ o. disconnect o a) l,
  )
  lookup-IsServed m category (client c) a x l e = (
    ap (λ o. start_by o a) l ∙ ap (λ o. wrapped o c.base.on_start) e,
    ap (λ o. stop_by o a) l ∙ ap (λ o. wrapped o c.base.on_stop) e,
    ap (λ o. connect o a) l ∙ ap (λ o. wrapped o c.on_connected) e,
    ap (λ o. disconnect o a) l ∙ ap (λ o. wrapped o c.on_disconnected) e,
  )

  registered_panics :
      (m : Map ℕ (Handler A E)) (category : ℕ) (h other : Handler A E)
      → lookup category m ≡ some h
      → register_handler category other m ≡ none
  unfolding register_handler
  registered_panics m category h other l = rw (l, register_handler) refl

  -- Registering handlers for distinct categories does not panic, in whatever order. Then an actor of the
  -- category of one of them, and of its type, gets exactly its callback when it starts and when it stops, and
  -- when it is connected or disconnected, if the handler is that of a client's actor; else that panics. To
  -- register another handler for the category panics.
  pub register_all_lem :
      (hs : List (ℕ × Handler A E)) (category : ℕ) (h : Handler A E) (a : A)
      (x : (callbacks h).Actor)
      → AreDistinct hs
      → Memᴰ (category, h) hs
      → (callbacks h).as_actor a ≡ some x
      → (m : Map ℕ (Handler A E)) × (register_all hs [] ≡ some m)
        × IsServed m category h a x
        × ((other : Handler A E) → register_handler category other m ≡ none)
  unfolding lookup
  register_all_lem hs category h a x d i e =
      let (m, r, f) = register_all_from hs [] d (AreNew-nil hs) in
      let l : lookup category m ≡ some h =
        f category ∙ or_else-none (handler_of category hs) ∙ handler_of_member category h hs d i in
      (m, r, lookup-IsServed m category h a x l e, λ other. registered_panics m category h other l)
