-- ===== src/Http/Samples.antt =====
-- A call that arrives, a small platform, and the theorems at work on them.
use mathlib.Core.List.Permᴰ.{Permᴰ, refl as same}
use mathlib.Core.Path.{subst}
use ggs.Prelude.{Result, ◌≡◌, refl, Option, none, some, List, [], ◌∷◌, ok, arith}
use ggs.Prelude.Int.{ℤ, pos}
use Prim.Native.String.{String}
use ggs.Login.{ErrCode}
use ggs.Login.Small.{
  Database, sample_services, sample_services-IsServices, sample_character, sample_database,
}
use ggs.Router.{Text}
use ggs.Router.Actors.{server, get_actor_fixed_node}
use ggs.Http.{Call, arrived, create_character}
use ggs.Http.Created.{serve_create, Says, create_character-Says}
use ggs.Http.Servers.{
  ServerCreateReq, Server, ServerInfo, Platform, IsPlatform, serve_server_create,
  handle_server_list, serve_server_create-listed,
}

abbrev sample_call : Call ℤ Database
sample_call serve s = (ok (serve s).0.1, (serve s).1)

abbrev sample_text : ErrCode → String
sample_text e = "refused"

create_character-Says_example :
    let serve = serve_create sample_services sample_services-IsServices (pos 7) sample_text in
    Says sample_services sample_services-IsServices
      (pos 7)
      sample_text
      (pos 101)
      (sample_character ∷ [])
      (create_character sample_call serve (pos 101) sample_database).0
      (create_character sample_call serve (pos 101) sample_database).1.0
create_character-Says_example =
    create_character-Says sample_services sample_services-IsServices (pos 7) sample_text sample_call
      (pos 101) sample_database (arrived refl)

-- The servers, and where their actors are.
abbrev SampleDb : Type 0
SampleDb = List Server × (ℤ → Option Text)

abbrev sample_platform : Platform
sample_platform = record {
  D = SampleDb;
  servers = λ d. d.0;
  located = λ id d. d.1 id;
  create_server = λ s d. (none, (s ∷ d.0, d.1));
  register_actor = λ id node d. (none, (d.0, λ x. some node));
  get_all_servers = λ d. (ok d.0, d);
}

same_ok : {l m : List Server} → ◌≡◌ {A = Result String (List Server)} (ok m) (ok l) → l ≡ m
same_ok h = ground arith

sample_platform-IsPlatform : IsPlatform sample_platform
sample_platform-IsPlatform = record {
  creates = λ s d h. same (s ∷ d.0);
  registers = λ id node d h. refl;
  register_keeps = λ id node d. refl;
  lists = λ l d h. subst (λ x. Permᴰ l x) (same_ok h) (same l);
}

abbrev sample_req : ServerCreateReq
sample_req = record { id = pos 101; name = "first" }

abbrev sample_node_id : Text → Text → Text
sample_node_id category name = name

serve_server_create-listed_example :
    let after =
      (serve_server_create sample_node_id sample_platform (ok sample_req) ([], λ x. none)).1 in
    (after.1 (pos 101) ≡ get_actor_fixed_node sample_node_id server (pos 101))
    × ((l : List ServerInfo)
        → (handle_server_list sample_node_id sample_platform tt after).0 ≡ ok l
        → Permᴰ l (record { id = pos 101; name = "first" } ∷ []))
serve_server_create-listed_example =
    serve_server_create-listed sample_node_id sample_platform sample_platform-IsPlatform sample_req
      ([], λ x. none) refl
