-- ===== src/Router/Groups.antt =====
-- Each server has a group of its own, with its nodes and its events in their order.
use mathlib.Core.List.{Memᴰ}
use mathlib.Core.List.Memᴰ.{head, tail}
use mathlib.Core.Path.{subst}
use ggs.Prelude.{
  ℕ, Bool, true, false, ◌≡◌, refl, sym, ap, ◌∙◌, Option, none, some, List, [], ◌∷◌, ◌++◌,
  append_assoc, append-nil, if◌then◌else◌, Bool-cases, Option-cases, inl, inr, arith,
}
use ggs.Prelude.Int.{ℤ, eqb_ℤ, eqb_ℤ-sound, eqb_ℤ-complete}
use ggs.Prelude.Decimal.{format_int-injective}
use ggs.Prelude.Map.{Map, bytes_eq, lookup, lookup-insert}
use ggs.Router.{
  Text, node_game, Node, NodeEvent, UpdateOp, make_group, accept_node, entries, or_empty, push,
  group_nodes, op_of, push_op, group_events, Selector, set_nodes, pick_game,
}

-- Two servers never share a group.
pub make_group-injective : (a b : ℤ) → make_group node_game a ≡ make_group node_game b → a ≡ b
unfolding make_group
make_group-injective a b h = format_int-injective a b (ap tail5 h)
  where
    tail5 : Text → Text
    tail5 (a ∷ b ∷ c ∷ d ∷ e ∷ t) = t
    tail5 t = t

-- A node of the game on server `s`.
abbrev pub on_server : ℤ → Node → Bool
on_server s n = if accept_node (some n) then eqb_ℤ n.server_id s else false

Bool-iff : (a b : Bool) → (a ≡ true → b ≡ true) → (b ≡ true → a ≡ true) → a ≡ b
Bool-iff true b f g = sym (f refl)
Bool-iff false true f g = g refl
Bool-iff false false f g = refl

in_group :
    (s : ℤ) (n : Node)
    → accept_node (some n) ≡ true
    → bytes_eq.beq (make_group n.category n.server_id) (make_group node_game s)
      ≡ eqb_ℤ n.server_id s
unfolding accept_node
in_group s n h =
    let game : n.category ≡ node_game = (bytes_eq.beq_iff n.category node_game).0 h in
    let same = bytes_eq.beq_iff (make_group n.category n.server_id) (make_group node_game s) in
    Bool-iff (bytes_eq.beq (make_group n.category n.server_id) (make_group node_game s))
      (eqb_ℤ n.server_id s)
      (λ e. eqb_ℤ-complete n.server_id s (
        make_group-injective n.server_id s
          (ap (λ c. make_group c n.server_id) (sym game) ∙ same.0 e)))
      (λ e. same.1 (
        ap (λ c. make_group c n.server_id) game
        ∙ ap (make_group node_game) (eqb_ℤ-sound n.server_id s e)))

module _ {A : Type 0} where
  entries-push :
      (g j : Text) (x : A) (m : Map Text (List A))
      → entries j (push g x m) ≡ (if bytes_eq.beq g j then entries j m ++ (x ∷ []) else entries j m)
  entries-push g j x m =
      ap or_empty (lookup-insert g j (entries g m ++ (x ∷ [])) m) ∙ go (bytes_eq.beq g j) refl
    where
      go :
          (b : Bool)
          → bytes_eq.beq g j ≡ b
          → or_empty (if b then some (entries g m ++ (x ∷ [])) else lookup j m)
            ≡ (if b then entries j m ++ (x ∷ []) else entries j m)
      go true e = ap (λ k. entries k m ++ (x ∷ [])) ((bytes_eq.beq_iff g j).0 e)
      go false e = refl

  -- The entries under `g` once those of `g` after `x` were pushed too.
  entries-pushed :
      (g j : Text) (x : A) (m : Map Text (List A)) (after : List A) (b : Bool)
      → bytes_eq.beq g j ≡ b
      → entries j (push g x m) ++ after ≡ entries j m ++ (if b then x ∷ after else after)
  entries-pushed g j x m after true e =
      ap (λ l. l ++ after) (entries-push g j x m ∙ rw e refl)
      ∙ append_assoc (entries j m) (x ∷ []) after
  entries-pushed g j x m after false e = ap (λ l. l ++ after) (entries-push g j x m ∙ rw e refl)

module _ (node_id : Node → Text) where
  -- The identifiers of the nodes of server `s`, and the updates of its events, in order.
  abbrev pub ids_on : ℤ → List (Option Node) → List Text
  ids_on s [] = []
  ids_on s (none ∷ ns) = ids_on s ns
  ids_on s (some n ∷ ns) =
      let rest = ids_on s ns in if on_server s n then node_id n ∷ rest else rest

  abbrev pub op_before : Option UpdateOp → List UpdateOp → List UpdateOp
  op_before none ops = ops
  op_before (some op) ops = op ∷ ops

  abbrev pub ops_on : ℤ → List NodeEvent → List UpdateOp
  ops_on s [] = []
  ops_on s (ev ∷ evs) =
      let rest = ops_on s evs in
      elim ev.node [
        | none ↦ rest
        | some n ↦ if on_server s n then op_before (op_of ev.kind (node_id n)) rest else rest
      ]

  group_nodes-entries :
      (s : ℤ) (nodes : List (Option Node)) (m : Map Text (List Text))
      → entries (make_group node_game s) (group_nodes node_id nodes m)
        ≡ entries (make_group node_game s) m ++ ids_on s nodes
  unfolding group_nodes
  group_nodes-entries s [] m = sym (append-nil _)
  group_nodes-entries s (none ∷ ns) m = group_nodes-entries s ns m
  group_nodes-entries s (some n ∷ ns) m = elim (Bool-cases (accept_node (some n))) [
    | inl e ↦
        rw (e, group_nodes)
          (group_nodes-entries s ns _
            ∙ entries-pushed (make_group n.category n.server_id) (make_group node_game s)
                (node_id n) m (ids_on s ns) (eqb_ℤ n.server_id s) (in_group s n e))
    | inr e ↦ rw (e, group_nodes) (group_nodes-entries s ns m)
  ]

  op_pushed :
      (g j : Text) (op : Option UpdateOp) (m : Map Text (List UpdateOp)) (after : List UpdateOp)
      (b : Bool)
      → bytes_eq.beq g j ≡ b
      → entries j (push_op g op m) ++ after
        ≡ entries j m ++ (if b then op_before op after else after)
  op_pushed g j none m after true e = refl
  op_pushed g j none m after false e = refl
  op_pushed g j (some op) m after b e =
      entries-pushed g j op m after b e ∙ ap (λ l. entries j m ++ l) (same b)
    where
      same :
          (b : Bool)
          → (if b then op ∷ after else after) ≡ (if b then op_before (some op) after else after)
      same true = refl
      same false = refl

  -- After `UpdateEvents` has grouped its events, the group of a server holds the updates of exactly
  -- the events of the game nodes of that server, in their order.
  pub group_events-entries :
      (s : ℤ) (events : List NodeEvent) (m : Map Text (List UpdateOp))
      → entries (make_group node_game s) (group_events node_id events m)
        ≡ entries (make_group node_game s) m ++ ops_on s events
  unfolding group_events
  group_events-entries s [] m = sym (append-nil _)
  group_events-entries s (ev ∷ evs) m = elim (Option-cases ev.node) [
    | inl e ↦ rw (e, group_events) (group_events-entries s evs m)
    | inr (n, e) ↦ elim (Bool-cases (accept_node (some n))) [
      | inl a ↦
          let g = make_group n.category n.server_id in
          rw (e, group_events, a)
            (group_events-entries s evs _
              ∙ op_pushed g (make_group node_game s) (op_of ev.kind (node_id n)) m (ops_on s evs)
                  (eqb_ℤ n.server_id s) (in_group s n a))
      | inr a ↦ rw (e, group_events, a) (group_events-entries s evs m)
    ]
  ]

  -- What `Pick` promises: after a full `Set` it picks among the members of the group.
  abbrev pub PicksMembers : Selector → Type 0
  PicksMembers r =
      (groups : Map Text (List Text)) (s : r.S) (g key : Text) (n : ℕ) (id : Text)
      → Memᴰ id (r.pick g key n (r.set groups true s))
      → Memᴰ id (entries g groups)

  ids_on_sound :
      (s : ℤ) (id : Text) (nodes : List (Option Node))
      → Memᴰ id (ids_on s nodes)
      → (n : Node) × Memᴰ (some n) nodes
        × (n.category ≡ node_game)
        × (n.server_id ≡ s)
        × (id ≡ node_id n)
  unfolding accept_node
  ids_on_sound s id [] h = elim h [ ]
  ids_on_sound s id (none ∷ ns) h =
      let (n, m, p, q, e) = ids_on_sound s id ns h in (n, tail m, p, q, e)
  ids_on_sound s id (some n ∷ ns) h = go (λ m. ids_on_sound s id ns m) (on_server s n) refl h
    where
      Found : List (Option Node) → Type 0
      Found nodes =
          (k : Node) × Memᴰ (some k) nodes
          × (k.category ≡ node_game)
          × (k.server_id ≡ s)
          × (id ≡ node_id k)

      go :
          (Memᴰ id (ids_on s ns) → Found ns)
          → (b : Bool) → on_server s n ≡ b
          → Memᴰ id (if b then node_id n ∷ ids_on s ns else ids_on s ns)
          → Found (some n ∷ ns)
      go later false e m = let (k, q, c, v, i) = later m in (k, tail q, c, v, i)
      go later true e (tail m) = let (k, q, c, v, i) = later m in (k, tail q, c, v, i)
      go later true e (head q) = elim (Bool-cases (accept_node (some n))) [
        | inl a ↦ (
          n,
          head refl,
          (bytes_eq.beq_iff n.category node_game).0 a,
          eqb_ℤ-sound n.server_id s (ground arith),
          q,
        )
        | inr a ↦ absurd (ground arith)
      ]

  -- After `SetNodes` has replaced all groups, `PickGame` answers only identifiers of nodes of the game
  -- that were given and that serve the wanted server.
  pub pick_game-set_nodes :
      (r : Selector) (law : PicksMembers r) (s : ℤ) (key : Text) (k : ℕ)
      (nodes : List (Option Node)) (st : r.S) (id : Text)
      → Memᴰ id (pick_game node_id r s key k (set_nodes node_id r nodes true st))
      → (n : Node) × Memᴰ (some n) nodes
        × (n.category ≡ node_game)
        × (n.server_id ≡ s)
        × (id ≡ node_id n)
  unfolding pick_game set_nodes lookup
  pick_game-set_nodes r law s key k nodes st id h =
      ids_on_sound s id nodes
        (subst (Memᴰ id) (group_nodes-entries s nodes []) (law _ st _ key k id h))
