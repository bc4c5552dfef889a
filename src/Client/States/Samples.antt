-- ===== src/Client/States/Samples.antt =====
-- A player with a character on server 5, and the theorems at work on it.
use ggs.Prelude.{ℕ, ◌≡◌, refl, false, some, none, List, [], ◌∷◌}
use ggs.Prelude.Map.{lookup}
use ggs.Client.Command.{Commands, index, is_space, trim_left, trim_right}
use ggs.Client.States.{
  state_init, state_login, LoginService, Player, run_init, Input, interrupt, eof, line,
}
use ggs.Client.States.Inputs.{NoExit}

abbrev sample_service : LoginService
sample_service = record {
  gen_user_token = some (b'u' ∷ []);
  get_character_list =
      λ t. some (record { id = 1; server_id = 4 } ∷ record { id = 2; server_id = 5 } ∷ []);
  create_character = λ t s. none;
  login_character = λ t id. some (id ∷ []);
}

abbrev fresh : Player
fresh = record { state = state_init; agent_token = []; connected = false }

abbrev entered : Player
entered = record { state = state_login; agent_token = 2 ∷ []; connected = false }

run_init_test : run_init sample_service 5 fresh ≡ some entered
unfolding run_init
run_init_test = refl

abbrev no_commands : Commands ℕ
no_commands = record { cmd_list = []; cmd_exec_map = [] }

abbrev sample_inputs : List Input
sample_inputs = line (b'x' ∷ []) ∷ eof ∷ interrupt ∷ eof ∷ []

quiet_test : NoExit no_commands sample_inputs
unfolding lookup trim_left trim_right is_space index
quiet_test = (λ s. refl, tt)
