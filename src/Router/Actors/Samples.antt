-- ===== src/Router/Actors/Samples.antt =====
-- A player of server 101, and the theorems at work on it.
use ggs.Prelude.{◌≡◌, refl, some, [], ◌∷◌}
use ggs.Prelude.Int.{pos}
use ggs.Router.{Node, node_game, make_group}
use ggs.Router.Actors.{player, stored, get_node_group, get_actor_node_group, get_actor_server_id}

abbrev sample_node : Node
sample_node = record { category = node_game; name = 1 ∷ []; addr = []; server_id = pos 101 }

sample_group : get_node_group (some sample_node) ≡ some (make_group node_game (pos 101))
unfolding get_node_group
sample_group = refl

sample_route :
    get_actor_node_group player (pos 5) (stored (pos 101)) ≡ some (make_group node_game (pos 101))
unfolding get_actor_node_group get_actor_server_id
sample_route = refl
