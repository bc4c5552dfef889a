-- ===== src/Agent/Place/Samples.antt =====
-- A register without the player, two game servers, and the theorem at work on them.
use ggs.Prelude.{
  ℕ, ◌+◌, ◌≡◌, refl, true, false, Option, none, some, List, [], ◌∷◌, Result, ok, err, arith,
}
use ggs.Prelude.Int.{pos}
use ggs.Prelude.Decimal.{format_int}
use ggs.Prelude.Map.{Map, lookup, insert}
use ggs.Router.{
  Text, node_game, Node, Selector, make_group, accept_node, group_nodes, entries, set_nodes,
  pick_game,
}
use ggs.Router.Groups.{PicksMembers}
use ggs.Agent.{LoginRun, no_actor}
use ggs.Agent.Place.{
  RegistryError, actor_not_exists, ActorLocation, ActorRegistry, IsActorRegistry, place_player,
}
use ggs.Agent.Place.Located.{IsPlace, placed-located}

-- The location of the one player, if it has one.
abbrev answer : Option ActorLocation → Result RegistryError ActorLocation
answer none = err actor_not_exists
answer (some l) = ok l

abbrev sample_registry : ActorRegistry
sample_registry = record {
  D = Option ActorLocation;
  located = λ p d. d;
  get_actor_location = λ p d. (answer d, d);
  register_actor =
      λ p node ttl d. (true, some (record { node_id = node; expire_at = pos (1000 + ttl) }));
}

answers : (l : ActorLocation) (d : Option ActorLocation) → answer d ≡ ok l → d ≡ some l
answers l none h = absurd (ground arith)
answers l (some x) h = ground arith

sample_registry-IsActorRegistry : IsActorRegistry sample_registry (pos 1000)
sample_registry-IsActorRegistry = record {
  answers = λ p l d h. answers l d h;
  asking_keeps = λ p d. refl;
  registers = λ p ttl node d h. (pos (1001 + ttl), ground arith, ground arith);
}

abbrev all_members : Selector
all_members = record {
  S = Map Text (List Text);
  set = λ groups all s. groups;
  update = λ updates s. s;
  pick = λ g key n s. entries g s;
}

abbrev tagged_name : Node → Text
tagged_name n = 1 ∷ n.name

all_members-PicksMembers : PicksMembers tagged_name all_members
all_members-PicksMembers groups s g key n id h = h

abbrev server_node : ℕ → Node
server_node server = record {
  category = node_game;
  name = server ∷ [];
  addr = [];
  server_id = pos server;
}

abbrev sample_nodes : List (Option Node)
sample_nodes = some (server_node 101) ∷ none ∷ some (server_node 102) ∷ []

abbrev sample_picked : List Text
sample_picked =
    pick_game tagged_name all_members (pos 102) [] 1
      (set_nodes tagged_name all_members sample_nodes true [])

abbrev sample_run : LoginRun
sample_run = record {
  token = none;
  locked = true;
  place = no_actor;
  picked = [];
  updated = false;
  session_id = 2;
  connected = true;
  forwarded = true;
}

placed-located_example :
    (l : ActorLocation) × (sample_registry.located 5
        (place_player sample_registry (pos 1000) 5 sample_picked none).1
      ≡ some l)
    × IsPlace sample_registry
        (pos 1000)
        sample_registry-IsActorRegistry
        tagged_name
        all_members
        all_members-PicksMembers
        (λ n. refl)
        5
        (pos 102)
        sample_nodes
        none
        l
unfolding pick_game set_nodes group_nodes accept_node make_group lookup insert format_int
placed-located_example =
    placed-located sample_registry (pos 1000) sample_registry-IsActorRegistry tagged_name
      all_members all_members-PicksMembers (λ n. refl) 5 (pos 102) sample_nodes [] [] none
      sample_run refl
