-- ===== src/Http/Servers.antt =====
-- The handlers that create and list servers (app/platform/internal/handlers/server.go,
-- app/login/internal/handlers/server.go).
use mathlib.Core.List.Permᴰ.{Permᴰ, nil, cons, swap, trans}
use mathlib.Core.Path.{subst}
use ggs.Prelude.{
  ◌≡◌, sym, ap, ◌⊎◌, Option, none, some, List, [], ◌∷◌, inl, inr, arith, Result, ok, err,
  Option-cases, Result-cases,
}
use ggs.Prelude.Int.{ℤ, pos}
use Prim.Native.String.{String}
use ggs.Router.{Text, node_game}
use ggs.Router.Actors.{server, make_server_node_name, get_actor_fixed_node}
use ggs.Http.{HandlerError, plain, Answer, wrap_handler_json_none, wrap_handler_query_json}

pub record ServerCreateReq : Type 0 where
  pub id : ℤ
  pub name : String

-- `models.Server`
pub record Server : Type 0 where
  pub id : ℤ
  pub name : String
  pub node_id : Text

pub record ServerInfo : Type 0 where
  pub id : ℤ
  pub name : String

-- The collection of servers, and the register of actors, with the node of a server's actor.
pub record Platform : Type 1 where
  pub D : Type 0
  pub servers : D → List Server
  pub located : ℤ → D → Option Text
  pub create_server : Server → D → Option String × D
  pub register_actor : ℤ → Text → D → Option String × D
  pub get_all_servers : D → Result String (List Server) × D

-- Without an error a call does what it says; registering leaves the collection. A query says the servers
-- in some order.
pub record IsPlatform (p : Platform) : Type 0 where
  pub creates :
      (s : Server) (d : p.D)
      → (p.create_server s d).0 ≡ none
      → Permᴰ (p.servers (p.create_server s d).1) (s ∷ p.servers d)
  pub registers :
      (id : ℤ) (node : Text) (d : p.D)
      → (p.register_actor id node d).0 ≡ none
      → p.located id (p.register_actor id node d).1 ≡ some node
  pub register_keeps :
      (id : ℤ) (node : Text) (d : p.D) → p.servers (p.register_actor id node d).1 ≡ p.servers d
  pub lists : (l : List Server) (d : p.D) → (p.get_all_servers d).0 ≡ ok l → Permᴰ l (p.servers d)

abbrev pub server_info : Server → ServerInfo
server_info s = record { id = s.id; name = s.name }

abbrev pub server_infos : List Server → List ServerInfo
server_infos [] = []
server_infos (s ∷ rest) = server_info s ∷ server_infos rest

server_infos-Permᴰ : {l m : List Server} → Permᴰ l m → Permᴰ (server_infos l) (server_infos m)
server_infos-Permᴰ nil = nil
server_infos-Permᴰ (cons e h) = cons (ap server_info e) (server_infos-Permᴰ h)
server_infos-Permᴰ (swap e f) = swap (ap server_info e) (ap server_info f)
server_infos-Permᴰ (trans h k) = trans (server_infos-Permᴰ h) (server_infos-Permᴰ k)

module _ (make_node_id : Text → Text → Text) (p : Platform) where
  open p use {D}

  abbrev pub new_server : ServerCreateReq → Server
  new_server req = record {
    id = req.id;
    name = req.name;
    node_id = make_node_id node_game (make_server_node_name req.id);
  }

  abbrev pub failed_with : Option String → Option HandlerError
  failed_with none = none
  failed_with (some e) = some (plain e)

  -- `handleServerCreate`
  abbrev pub handle_server_create : ServerCreateReq → D → Option HandlerError × D
  handle_server_create req d =
      let s = new_server req in
      let (e, d1) = p.create_server s d in
      let (f, d2) = p.register_actor s.id s.node_id d1 in
      elim e [ some x ↦ (some (plain x), d1) | none ↦ (failed_with f, d2) ]

  -- `handleServerList`
  abbrev pub handle_server_list : Unit {0} → D → Result HandlerError (List ServerInfo) × D
  handle_server_list req d =
      let (r, d') = p.get_all_servers d in
      (elim r [ err x ↦ err (plain x) | ok all_servers ↦ ok (server_infos all_servers) ], d')

  -- The routes `/server/create` of the platform and `/server/list` of the login service
  abbrev pub serve_server_create : Result String ServerCreateReq → D → Answer (Unit {0}) × D
  serve_server_create = wrap_handler_json_none handle_server_create

  abbrev pub serve_server_list : Result String (Unit {0}) → D → Answer (List ServerInfo) × D
  serve_server_list = wrap_handler_query_json handle_server_list

  create_cases :
      (law : IsPlatform p) (req : ServerCreateReq) (d : D)
      → (handle_server_create req d).0 ≡ none
      → Permᴰ (p.servers (handle_server_create req d).1) (new_server req ∷ p.servers d)
        × (p.located req.id (handle_server_create req d).1 ≡ some (new_server req).node_id)
  create_cases law req d h =
      let s = new_server req in
      let d1 = (p.create_server s d).1 in
      elim (Option-cases (p.create_server s d).0) [
        | inr (x, e) ↦ absurd (ground arith)
        | inl e ↦ elim (Option-cases (p.register_actor s.id s.node_id d1).0) [
          | inr (x, f) ↦ absurd (ground arith)
          | inl f ↦
              rw (e, handle_server_create)
                (
                  subst (λ l. Permᴰ l (s ∷ p.servers d))
                      (sym (law.register_keeps s.id s.node_id d1)) (law.creates s d e),
                  law.registers s.id s.node_id d1 f,
                )
        ]
      ]

  -- An error of the handler has no code.
  plain_error :
      (req : ServerCreateReq) (d : D)
      → ((handle_server_create req d).0 ≡ none)
        ⊎ ((m : String) × ((handle_server_create req d).0 ≡ some (plain m)))
  plain_error req d =
      let s = new_server req in
      let d1 = (p.create_server s d).1 in
      elim (Option-cases (p.create_server s d).0) [
        | inr (x, e) ↦ inr (x, ground arith)
        | inl e ↦ elim (Option-cases (p.register_actor s.id s.node_id d1).0) [
          | inr (x, f) ↦ inr (x, ground arith)
          | inl f ↦ inl (ground arith)
        ]
      ]

  listed :
      (law : IsPlatform p) (d : D) (l : List ServerInfo)
      → (handle_server_list tt d).0 ≡ ok l
      → Permᴰ l (server_infos (p.servers d))
  listed law d l h = elim (Result-cases (p.get_all_servers d).0) [
    | inr (x, e) ↦ absurd (ground arith)
    | inl (all_servers, e) ↦
        let same : server_infos all_servers ≡ l = ground arith in
        subst (λ x. Permᴰ x (server_infos (p.servers d))) same
          (server_infos-Permᴰ (law.lists all_servers d e))
  ]

  -- When the platform answers the code 0 to a request for a new server, its actor is registered at the
  -- node to which the game routes it, and the list that the login service answers next, when it can be
  -- read, has the servers of before and the new one, each as often, in some order.
  pub serve_server_create-listed :
      (law : IsPlatform p) (req : ServerCreateReq) (d : D)
      → (serve_server_create (ok req) d).0.1.code ≡ pos 0
      → let after = (serve_server_create (ok req) d).1 in
        (p.located req.id after ≡ get_actor_fixed_node make_node_id server req.id)
        × ((l : List ServerInfo)
            → (handle_server_list tt after).0 ≡ ok l
            → Permᴰ l (record { id = req.id; name = req.name } ∷ server_infos (p.servers d)))
  unfolding get_actor_fixed_node
  serve_server_create-listed law req d h = elim (plain_error req d) [
    | inr (m, e) ↦ absurd (ground arith)
    | inl e ↦
        let (kept, located) = create_cases law req d e in
        (
          located,
          λ l f. trans (listed law (handle_server_create req d).1 l f) (server_infos-Permᴰ kept),
        )
  ]
