-- ===== src/Router/Samples.antt =====
-- Two servers of the game and a gate, and the theorems at work on them.
use mathlib.Core.List.{Memᴰ}
use mathlib.Core.List.Memᴰ.{head, tail}
use ggs.Prelude.{ℕ, zero, suc, ◌≡◌, refl, true, Option, none, some, List, [], ◌∷◌, ◌++◌, take}
use ggs.Prelude.Int.{pos}
use ggs.Prelude.Decimal.{format_int}
use ggs.Prelude.Map.{Map, bytes_eq, lookup, insert}
use ggs.Router.{
  Text, node_game, Node, NodeEvent, add, del, make_group, accept_node, entries, group_nodes,
  group_events, Selector, set_nodes, pick_game,
}
use ggs.Router.Groups.{ops_on, group_events-entries, PicksMembers}

abbrev game_node : ℕ → ℕ → Node
game_node server id = record {
  category = node_game;
  name = id ∷ [];
  addr = [];
  server_id = pos server;
}

abbrev gate_node : Node
gate_node = record { category = b'g' ∷ []; name = 9 ∷ []; addr = []; server_id = pos 101 }

abbrev node_name : Node → Text
node_name n = n.name

-- Picks the first members of a group.
abbrev first_members : Selector
first_members = record {
  S = Map Text (List Text);
  set = λ groups all s. groups;
  update = λ updates s. s;
  pick = λ g key n s. take n (entries g s);
}

take-Memᴰ : (n : ℕ) (id : Text) (l : List Text) → Memᴰ id (take n l) → Memᴰ id l
take-Memᴰ zero id l h = elim h [ ]
take-Memᴰ (suc n) id [] h = elim h [ ]
take-Memᴰ (suc n) id (x ∷ l) (head e) = head e
take-Memᴰ (suc n) id (x ∷ l) (tail h) = tail (take-Memᴰ n id l h)

first_members-PicksMembers : PicksMembers node_name first_members
first_members-PicksMembers groups s g key n id h = take-Memᴰ n id (entries g groups) h

abbrev sample_events : List NodeEvent
sample_events =
    record { kind = add; node = some (game_node 101 1) }
    ∷ record { kind = add; node = some gate_node }
    ∷ record { kind = add; node = some (game_node 102 2) }
    ∷ record { kind = del; node = some (game_node 101 1) }
    ∷ []

group_events-entries_example :
    entries (make_group node_game (pos 101)) (group_events node_name sample_events [])
    ≡ entries (make_group node_game (pos 101)) [] ++ ops_on node_name (pos 101) sample_events
group_events-entries_example = group_events-entries node_name (pos 101) sample_events []

abbrev sample_nodes : List (Option Node)
sample_nodes = some gate_node ∷ none ∷ some (game_node 101 1) ∷ some (game_node 102 2) ∷ []

picked_test :
    pick_game node_name first_members
      (pos 102)
      []
      1
      (set_nodes node_name first_members sample_nodes true [])
    ≡ (2 ∷ []) ∷ []
unfolding pick_game set_nodes group_nodes accept_node make_group lookup insert format_int
picked_test = refl
