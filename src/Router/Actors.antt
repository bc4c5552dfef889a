-- ===== src/Router/Actors.antt =====
-- Where the game's actors live (app/game/internal/app/actor.go, internal/base/nodeutil).
--
-- The store of the players' servers and the text of a node's identifier are code of a library: what
-- the store answers is an argument, and the text is a parameter.
pub mod Routes
mod Samples
use ggs.Prelude.{ℕ, Bool, true, false, Option, none, some, [], if◌then◌else◌}
use ggs.Prelude.Decimal.{format_int}
use ggs.Prelude.Int.{ℤ, pos, leb_ℤ}
use ggs.Router.{Text, Node, node_game, make_group}

pub data Category : Type 0 where
  server player : Category
  other_category : ℕ → Category

-- What `GetActorServer` answers.
pub data ServerAnswer : Type 0 where
  store_error absent : ServerAnswer
  stored : ℤ → ServerAnswer

-- `MakeServerNodeName` and `NewServerNode`
unfoldable pub make_server_node_name : ℤ → Text
make_server_node_name server_id = format_int server_id

unfoldable pub new_server_node : Text → ℤ → Text → Node
new_server_node category server_id addr = record {
  category = category;
  name = make_server_node_name server_id;
  addr = addr;
  server_id = server_id;
}

-- `getNodeGroup`
unfoldable pub get_node_group : Option Node → Option Text
get_node_group none = none
get_node_group (some n) = some (make_group n.category n.server_id)

-- `getActorFixedNode`
unfoldable pub get_actor_fixed_node : (Text → Text → Text) → Category → ℤ → Option Text
get_actor_fixed_node make_node_id server id =
    some (make_node_id node_game (make_server_node_name id))
get_actor_fixed_node make_node_id _ id = none

-- `getActorServerID`
abbrev pub positive_server : ServerAnswer → Option ℤ
positive_server store_error = none
positive_server absent = none
positive_server (stored s) = if leb_ℤ s (pos 0) then none else some s

unfoldable pub get_actor_server_id : Category → ℤ → ServerAnswer → Option ℤ
get_actor_server_id server id answer = some id
get_actor_server_id player id answer = positive_server answer
get_actor_server_id (other_category _) id answer = none

-- `getActorNodeGroup`
unfoldable pub get_actor_node_group : Category → ℤ → ServerAnswer → Option Text
get_actor_node_group player id answer = elim (get_actor_server_id player id answer) [
  | none ↦ none
  | some s ↦ some (make_group node_game s)
]
get_actor_node_group _ id answer = none
