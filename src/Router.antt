-- ===== src/Router.antt =====
-- The agent's choice of a game node (app/agent/internal/infra/router/nodeselector.go).
--
-- Texts are lists of bytes. The selector over groups of node identifiers is code of a library and so
-- a parameter, and so are a node's identifier and the bytes of a number in the machine's order.
pub mod Groups
pub mod Actors
mod Samples
use ggs.Prelude.{ℕ, Bool, true, false, Option, none, some, List, [], ◌∷◌, ◌++◌, if◌then◌else◌}
use ggs.Prelude.Int.{ℤ}
use ggs.Prelude.Decimal.{format_int}
use ggs.Prelude.Map.{Map, bytes_eq, lookup, insert, nonempty}

abbrev pub Text : Type 0
Text = List ℕ

abbrev pub node_game : Text
node_game = b'g' ∷ b'a' ∷ b'm' ∷ b'e' ∷ []

-- `cluster.Node`
pub record Node : Type 0 where
  pub category : Text
  pub name : Text
  pub addr : Text
  pub server_id : ℤ

pub data NodeEventType : Type 0 where
  add del : NodeEventType
  other : ℕ → NodeEventType

-- `cluster.NodeEvent`; a nil node is `none`.
pub record NodeEvent : Type 0 where
  pub kind : NodeEventType
  pub node : Option Node

pub data UpdateType : Type 0 where
  update_add update_remove : UpdateType

-- `noderouter.UpdateOp`
abbrev pub UpdateOp : Type 0
UpdateOp = UpdateType × List Text

-- `makeGroup`, and the same function `makeNodeGroup` of the game (app/game/internal/app/actor.go).
unfoldable pub make_group : Text → ℤ → Text
make_group category server_id =
    if bytes_eq.beq category node_game then node_game ++ (b'/' ∷ format_int server_id) else category

unfoldable pub accept_node : Option Node → Bool
accept_node none = false
accept_node (some n) = bytes_eq.beq n.category node_game

-- What a Go map of slices holds at a key, and `m[k] = append(m[k], x)`.
abbrev pub or_empty {ℓ} : {A : Type ℓ} → Option (List A) → List A
or_empty none = []
or_empty (some xs) = xs

abbrev pub entries {ℓ} : {A : Type ℓ} → Text → Map Text (List A) → List A
entries g m = or_empty (lookup g m)

abbrev pub push {ℓ} : {A : Type ℓ} → Text → A → Map Text (List A) → Map Text (List A)
push g x m = insert g (entries g m ++ (x ∷ [])) m

-- The switch in the loop of `UpdateEvents`.
unfoldable pub op_of : NodeEventType → Text → Option UpdateOp
op_of add id = some (update_add, id ∷ [])
op_of del id = some (update_remove, id ∷ [])
op_of (other _) id = none

abbrev pub push_op : Text → Option UpdateOp → Map Text (List UpdateOp) → Map Text (List UpdateOp)
push_op g none updates = updates
push_op g (some op) updates = push g op updates

-- `noderouter.Selector`
pub record Selector : Type 1 where
  pub S : Type 0
  pub set : Map Text (List Text) → Bool → S → S
  pub update : Map Text (List UpdateOp) → S → S
  pub pick : Text → Text → ℕ → S → List Text

module _ (node_id : Node → Text) where
  -- The loop of `SetNodes`.
  unfoldable pub group_nodes : List (Option Node) → Map Text (List Text) → Map Text (List Text)
  group_nodes [] groups = groups
  group_nodes (none ∷ ns) groups = group_nodes ns groups
  group_nodes (some n ∷ ns) groups =
      if accept_node (some n)
      then group_nodes ns (push (make_group n.category n.server_id) (node_id n) groups)
      else group_nodes ns groups

  -- The loop of `UpdateEvents`.
  unfoldable pub group_events : List NodeEvent → Map Text (List UpdateOp) → Map Text (List UpdateOp)
  group_events [] updates = updates
  group_events (ev ∷ evs) updates = elim ev.node [
    | none ↦ group_events evs updates
    | some n ↦
        if accept_node (some n)
        then group_events evs
            (push_op (make_group n.category n.server_id) (op_of ev.kind (node_id n)) updates)
        else group_events evs updates
  ]

  module _ (r : Selector) where
    open r use {S, set, update, pick}

    -- `SetNodes`
    unfoldable pub set_nodes : List (Option Node) → Bool → S → S
    set_nodes nodes all s = set (group_nodes nodes []) all s

    -- `UpdateEvents`
    unfoldable pub update_events : List NodeEvent → S → S
    update_events events s =
        let updates = group_events events [] in if nonempty updates then update updates s else s

    -- `PickGame`; `key` is the bytes of the player's identifier.
    unfoldable pub pick_game : ℤ → Text → ℕ → S → List Text
    pick_game server_id key n s = pick (make_group node_game server_id) key n s
