-- ===== src/Router/Actors/Routes.antt =====
-- An actor is routed to the nodes of its own server.
use ggs.Prelude.{◌≡◌, sym, ap, ◌∙◌, some, Option-cases, Bool-cases, inl, inr, arith}
use ggs.Prelude.Int.{ℤ, pos, leb_ℤ}
use ggs.Router.{Text, Node, node_game, make_group}
use ggs.Router.Groups.{make_group-injective}
use ggs.Router.Actors.{
  server, player, ServerAnswer, stored, store_error, absent, positive_server, new_server_node,
  get_node_group, get_actor_fixed_node, get_actor_server_id, get_actor_node_group,
}

positive_server_stored :
    (answer : ServerAnswer) (s : ℤ) → positive_server answer ≡ some s → answer ≡ stored s
positive_server_stored store_error s h = absurd (ground arith)
positive_server_stored absent s h = absurd (ground arith)
positive_server_stored (stored t) s h =
    ap stored
      (elim (Bool-cases (leb_ℤ t (pos 0))) [ inl e ↦ absurd (ground arith) | inr e ↦ ground arith ])

-- A game node is in the group that a player's actor is routed to only if the store says that the
-- player is of that node's server.
get_actor_node_group-stored :
    (n : Node) (id : ℤ) (answer : ServerAnswer) (g : Text)
    → n.category ≡ node_game
    → get_node_group (some n) ≡ some g
    → get_actor_node_group player id answer ≡ some g
    → answer ≡ stored n.server_id
unfolding get_node_group get_actor_node_group get_actor_server_id
get_actor_node_group-stored n id answer g c h k = elim (Option-cases (positive_server answer)) [
  | inl e ↦ absurd (ground arith)
  | inr (s, e) ↦
      let of_node : make_group n.category n.server_id ≡ g = ground arith in
      let of_actor : make_group node_game s ≡ g = ground arith in
      let same =
        make_group-injective s n.server_id
          (of_actor ∙ sym of_node ∙ ap (λ x. make_group x n.server_id) c) in
      positive_server_stored answer s e ∙ ap stored same
]

-- The fixed node of a server's actor is the node that the server makes of itself, whatever its
-- address, if a node's identifier is made of its category and name.
get_actor_fixed_node-new_server_node :
    (make_node_id : Text → Text → Text) (get_node_id : Node → Text) (server_id : ℤ) (addr : Text)
    → ((n : Node) → get_node_id n ≡ make_node_id n.category n.name)
    → get_actor_fixed_node make_node_id server server_id
      ≡ some (get_node_id (new_server_node node_game server_id addr))
unfolding get_actor_fixed_node new_server_node
get_actor_fixed_node-new_server_node make_node_id get_node_id server_id addr law =
    ap some (sym (law (new_server_node node_game server_id addr)))
