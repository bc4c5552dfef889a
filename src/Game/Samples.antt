-- ===== src/Game/Samples.antt =====
-- A player with two items, and the theorems at work on it.
use ggs.Prelude.{
  ◌≡◌, ◌⊎◌, refl, inl, inr, true, false, some, [], ◌∷◌, ◌==◌, if◌then◌else◌, Bool-cases, arith,
}
use ggs.Prelude.Int.{pos, ltb_ℤ, ◌-ℤ◌, ◌+ℤ◌, add64}
use ggs.Prelude.Decimal.{format_int}
use ggs.Prelude.Map.{nat_eq, lookup, insert}
use ggs.Player.Items.{Items, get_num, get_item, add, add_item}
use ggs.Player.Items.Bounds.{IsValid}
use ggs.Game.{
  PlayerActor, items_key, item_not_enough, use_item_resp, reply, reply_error, push, init_items,
  init_player, use_item_req, handle,
}
use ggs.Game.Requests.{use_item_effect}

abbrev bag : Items
bag = record { items = some ((3, record { id = 3; num = pos 40 }) ∷ []) }

bag-IsValid : IsValid bag
unfolding lookup
bag-IsValid = record {
  kept = λ id item h. elim (Bool-cases (3 == id)) [
    | inl e ↦ record {
      keyed = ground arith;
      named = ground arith;
      positive = ground arith;
      fits = ground arith;
    }
    | inr e ↦ absurd (ground arith)
  ];
}

abbrev sample_player : PlayerActor
sample_player = record {
  id = pos 5;
  name = 65 ∷ [];
  items = bag;
  version = 1;
  is_login = true;
  last_heartbeat_time = 0;
  heartbeat_timer_id = some 1;
  stopped_timers = [];
  dirty = [];
  all_dirty = false;
}

use_item_effect_example :
    ((ltb_ℤ (get_num bag 3) (pos 15) ≡ true)
      × (handle [] (use_item_req 3 (pos 15)) sample_player
          ≡ some (reply_error item_not_enough ∷ [], sample_player)))
    ⊎ ((ltb_ℤ (get_num bag 3) (pos 15) ≡ false)
        × (items : Items) × (handle [] (use_item_req 3 (pos 15)) sample_player
            ≡ some (
              reply (use_item_resp 3 (pos 15) (get_num bag 3 -ℤ pos 15))
                  ∷ push (get_item items 3).0
                  ∷ [],
              record sample_player { items = items; dirty = items_key ∷ [] },
            ))
        × (get_num items 8 ≡ (if 3 == 8 then get_num bag 3 -ℤ pos 15 else get_num bag 8)))
use_item_effect_example =
    use_item_effect [] sample_player 3 (pos 15) 8 bag-IsValid refl (omega arith) (omega arith)

abbrev offline_player : PlayerActor
offline_player = record sample_player { is_login = false }

abbrev unmade_player : PlayerActor
unmade_player = record sample_player {
  version = 0;
  items = record { items = some [] };
  is_login = false;
}

no_items-IsValid : IsValid (record { items = some [] })
unfolding lookup
no_items-IsValid = record { kept = λ id item h. absurd (ground arith) }

abbrev made_player : PlayerActor
made_player = record unmade_player {
  name = b'p' ∷ b'l' ∷ b'a' ∷ b'y' ∷ b'e' ∷ b'r' ∷ b'5' ∷ [];
  items = record { items = some ((3, record { id = 3; num = pos 10 }) ∷ []) };
  version = 1;
  all_dirty = true;
}

init_player_test : init_player ((3, pos 10) ∷ []) unmade_player ≡ some made_player
unfolding init_player init_items add add_item add64 ◌+ℤ◌ lookup insert format_int
init_player_test = refl
