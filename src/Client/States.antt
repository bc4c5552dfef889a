-- ===== src/Client/States.antt =====
-- The states of the client (app/client/internal/mode/client/state.go): it takes a character from the
-- login service, logs in at the agent, and then reads commands.
--
-- The services are parameters. `none` is an error that ends the program (log.Fatalf).
pub mod Chosen
pub mod Inputs
mod Samples
use ggs.Prelude.{
  ℕ, zero, suc, ◌+◌, ◌≡◌, ◌≢◌, refl, sym, ap, ◌∙◌, ◌⊎◌, inl, inr, Bool, true, false, Option, none,
  some, List, [], ◌∷◌, ◌==◌, ==_iff, if◌then◌else◌, Bool-cases, Option-cases, arith, Result, ok,
  err,
}
use ggs.Client.{Message, RequestError}
use ggs.Client.Command.{Text, Commands, exec}
use mathlib.Core.Path.{subst}
use mathlib.Core.List.Memᴰ.{Memᴰ, head, tail}

pub data State : Type 0 where
  state_init state_login state_play : State

-- Identifiers are the bit patterns of int64 numbers.
pub record CharacterInfo : Type 0 where
  pub id : ℕ
  pub server_id : ℕ

-- The token that `genUserToken` signs, and the three calls of the login service.
pub record LoginService : Type 0 where
  pub gen_user_token : Option Text
  pub get_character_list : Text → Option (List CharacterInfo)
  pub create_character : Text → ℕ → Option ℕ
  pub login_character : Text → ℕ → Option Text

pub record Player : Type 0 where
  pub state : State
  pub agent_token : Text
  pub connected : Bool

-- `characters`
abbrev pub of_server : ℕ → List CharacterInfo → List CharacterInfo
of_server server_id [] = []
of_server server_id (v ∷ vs) =
    let rest = of_server server_id vs in if v.server_id == server_id then v ∷ rest else rest

-- The character on the server, made if there is none.
abbrev pub first_or_create : LoginService → Text → ℕ → List CharacterInfo → Option ℕ
first_or_create l token server_id [] = l.create_character token server_id
first_or_create l token server_id (v ∷ vs) = some v.id

abbrev pub logged_in : Player → Option Text → Option Player
logged_in c none = none
logged_in c (some token) = some (record c { agent_token = token; state = state_login })

abbrev pub login_as : LoginService → Text → Player → Option ℕ → Option Player
login_as l token c none = none
login_as l token c (some id) = logged_in c (l.login_character token id)

abbrev pub choose : LoginService → ℕ → Text → Player → Option (List CharacterInfo) → Option Player
choose l server_id token c none = none
choose l server_id token c (some list) =
    login_as l token c (first_or_create l token server_id (of_server server_id list))

abbrev pub with_token : LoginService → ℕ → Player → Option Text → Option Player
with_token l server_id c none = none
with_token l server_id c (some token) = choose l server_id token c (l.get_character_list token)

-- `run` of `stateInitLogic`
unfoldable pub run_init : LoginService → ℕ → Player → Option Player
run_init l server_id c = with_token l server_id c l.gen_user_token

-- The wrapper of `sendReq` that wants a response of one type.
pub data TypedError : Type 0 where
  failed : RequestError → TypedError
  response_error wrong_type : TypedError

pub record ResponseType : Type 1 where
  pub Response : Type 0
  pub of_message : Message → Option Response
  pub is_error : Message → Bool

module _ (t : ResponseType) where
  open t use {Response}

  abbrev pub typed_message : Message → Option Response → Result TypedError Response
  typed_message m (some r) = ok r
  typed_message m none = if t.is_error m then err response_error else err wrong_type

  abbrev pub typed_response : Result RequestError Message → Result TypedError Response
  typed_response (err e) = err (failed e)
  typed_response (ok m) = typed_message m (t.of_message m)

  abbrev pub after_login : Player → Result TypedError Response → Option Player
  after_login c (err e) = none
  after_login c (ok r) = some (record c { connected = true; state = state_play })

  -- `run` of `stateLoginLogic`: whether the agent was reached, and what the request gets.
  unfoldable pub run_login : Bool → Result RequestError Message → Player → Option Player
  run_login reached resp c = if reached then after_login c (typed_response resp) else none

-- What `Readline` answers.
pub data Input : Type 0 where
  interrupt eof : Input
  line : Text → Input

pub data Ended : Type 0 where
  exited running : Ended

-- `run` of `statePlayLogic`, which the loop of the client starts again when it returns. `tickers`
-- counts the goroutines that send heartbeats.
module _ {S : Type 0} (cs : Commands S) where
  unfoldable pub play : List Input → ℕ → S → Ended × ℕ × S
  play [] tickers s = (running, tickers, s)
  play (interrupt ∷ inputs) tickers s = play inputs tickers s
  play (eof ∷ inputs) tickers s = play inputs (suc tickers) s
  play (line l ∷ inputs) tickers s =
      let (exits, s') = exec cs l s in
      let rest = play inputs tickers s' in if exits then (exited, tickers, s') else rest

  abbrev pub run_play : List Input → S → Ended × ℕ × S
  run_play inputs s = play inputs 1 s
