-- ===== src/Game.antt =====
-- The requests of a player in the game (app/game/internal/handler/player, app/game/internal/systems,
-- and their wrappers in internal/infra/actor/handler).
--
-- The modules of the player are there: the library makes them when they are first asked for. The
-- answer of the server actor, the clock and the timers' numbers are arguments.
pub mod Requests
pub mod Heartbeat
pub mod Dispatch
mod Samples
use ggs.Prelude.{
  ℕ, zero, suc, Bool, true, false, ◌||◌, Option, none, some, List, [], ◌∷◌, ◌++◌, map, ◌==◌, ltb,
  if◌then◌else◌, Result, ok, err,
}
use ggs.Prelude.Int.{ℤ, pos, leb_ℤ}
use ggs.Prelude.Decimal.{format_int}
use ggs.Player.Items.{Item, Items, add, sub, get_item}

abbrev pub Text : Type 0
Text = List ℕ

pub data ModuleKey : Type 0 where
  base_info_key items_key : ModuleKey

pub record PlayerActor : Type 0 where
  pub id : ℤ
  pub name : Text
  pub items : Items
  pub version : ℕ
  pub is_login : Bool
  pub last_heartbeat_time : ℕ
  pub heartbeat_timer_id : Option ℕ
  pub stopped_timers : List ℕ
  pub dirty : List ModuleKey
  pub all_dirty : Bool

-- The codes that the handlers answer, and an error that is no `PbError`.
pub data HandlerError : Type 0 where
  internal_error invalid_packet item_not_enough : HandlerError
  plain_error : HandlerError

pub data Response : Type 0 where
  login_character_resp heartbeat_resp : Response
  modify_name_resp : Text → Response
  use_item_resp : ℕ → ℤ → ℤ → Response

-- What a request sends to the client.
pub data Sent : Type 0 where
  reply : Response → Sent
  reply_error : HandlerError → Sent
  decode_error : Sent
  push : Item → Sent

-- A handler's answer, the player after it, and the pushes that it has queued.
abbrev pub Handled : Type 0
Handled = Result HandlerError Response × PlayerActor × List Item

-- `Items.UseItem`
unfoldable pub use_item : ℕ → ℤ → PlayerActor → (ℤ × Bool) × PlayerActor × List Item
use_item id num p =
    let ((left, taken), items) = sub p.items id num in
    if id == 0 || leb_ℤ num (pos 0)
    then ((pos 0, false), p, [])
    else (if taken
        then (
          (left, true),
          record p { items = items; dirty = items_key ∷ p.dirty },
          (get_item items id).0 ∷ [],
        )
        else ((left, false), record p { items = items }, []))

-- `handleUseItem`
abbrev pub answer_use_item : ℕ → ℤ → (ℤ × Bool) × PlayerActor × List Item → Handled
answer_use_item id num ((left, true), p, pushes) = (ok (use_item_resp id num left), p, pushes)
answer_use_item id num ((left, false), p, pushes) = (err item_not_enough, p, pushes)

unfoldable pub handle_use_item : ℕ → ℤ → PlayerActor → Handled
handle_use_item id num p =
    if id == 0 || leb_ℤ num (pos 0)
    then (err invalid_packet, p, [])
    else answer_use_item id num (use_item id num p)

-- `handleModifyName` and `handleHeartbeat`
unfoldable pub handle_modify_name : Text → PlayerActor → Handled
handle_modify_name name p =
    (ok (modify_name_resp name), record p { name = name; dirty = base_info_key ∷ p.dirty }, [])

unfoldable pub handle_heartbeat : ℕ → PlayerActor → Handled
handle_heartbeat now p = (ok heartbeat_resp, record p { last_heartbeat_time = now }, [])

-- `Items.init`: the configured items are added; `none` is a panic of `Add`.
unfoldable pub init_items : List (ℕ × ℤ) → Items → Option Items
init_items [] m = some m
init_items ((id, count) ∷ rest) m = elim (add m id count) [
  | none ↦ none
  | some r ↦ init_items rest r.1
]

abbrev pub default_name : ℤ → Text
default_name id = b'p' ∷ b'l' ∷ b'a' ∷ b'y' ∷ b'e' ∷ b'r' ∷ format_int id

-- `InitPlayer`, with the configured items.
unfoldable pub init_player : List (ℕ × ℤ) → PlayerActor → Option PlayerActor
init_player configured p =
    if ltb 0 p.version then some p else elim (init_items configured p.items) [
      | none ↦ none
      | some items ↦
          some (record p { name = default_name p.id; items = items; version = 1; all_dirty = true })
    ]

-- `StopTimer`, of a timer that is not `TimerIdNone`
abbrev pub stop_timer : Option ℕ → List ℕ → List ℕ
stop_timer none stopped = stopped
stop_timer (some tid) stopped = tid ∷ stopped

-- `SetLogin`, which stops the heartbeat timer that there is, and starts the timer `tid`.
unfoldable pub set_login : ℕ → PlayerActor → PlayerActor
set_login tid p = record p {
  is_login = true;
  heartbeat_timer_id = some tid;
  stopped_timers = stop_timer p.heartbeat_timer_id p.stopped_timers;
}

-- `handleLoginCharacter`; `named` says whether the server actor told its name.
unfoldable pub handle_login_character : List (ℕ × ℤ) → ℕ → Bool → PlayerActor → Option Handled
handle_login_character configured tid named p = elim (init_player configured p) [
  | none ↦ none
  | some q ↦ some (if named then ok login_character_resp else err plain_error, set_login tid q, [])
]

-- `replyC2SError`
abbrev pub reply_c2s_error : HandlerError → Sent
reply_c2s_error plain_error = reply_error internal_error
reply_c2s_error internal_error = reply_error internal_error
reply_c2s_error invalid_packet = reply_error invalid_packet
reply_c2s_error item_not_enough = reply_error item_not_enough

-- `handlePushMsgQueue`
abbrev pub handle_push_msg_queue : List Item → List Sent
handle_push_msg_queue queue = map push queue

-- `WrapReqFunc`: the answer, and then the queued pushes.
unfoldable pub wrap_req_func : Handled → List Sent × PlayerActor
wrap_req_func (ok r, p, pushes) = (reply r ∷ handle_push_msg_queue pushes, p)
wrap_req_func (err e, p, pushes) = (reply_c2s_error e ∷ handle_push_msg_queue pushes, p)

-- `mdCheckLogin` before a handler.
unfoldable pub check_login : PlayerActor → Handled → List Sent × PlayerActor
check_login p h = if p.is_login then wrap_req_func h else ([], p)

pub data Request : Type 0 where
  undecodable unregistered : Request
  login_character : ℕ → Bool → Request
  heartbeat : ℕ → Request
  modify_name : Text → Request
  use_item_req : ℕ → ℤ → Request

-- `C2SHandler.Handle`, with the functions that `initC2SHandler` registers.
unfoldable pub handle : List (ℕ × ℤ) → Request → PlayerActor → Option (List Sent × PlayerActor)
handle configured undecodable p = some (decode_error ∷ [], p)
handle configured unregistered p = some (reply_error internal_error ∷ [], p)
handle configured (login_character tid named) p =
    elim (handle_login_character configured tid named p) [
      | none ↦ none
      | some h ↦ some (wrap_req_func h)
    ]
handle configured (heartbeat now) p = some (check_login p (handle_heartbeat now p))
handle configured (modify_name name) p = some (check_login p (handle_modify_name name p))
handle configured (use_item_req id num) p = some (check_login p (handle_use_item id num p))
