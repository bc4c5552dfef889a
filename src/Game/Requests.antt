-- ===== src/Game/Requests.antt =====
-- What a request does to a player.
use mathlib.Core.Path.{subst}
use ggs.Prelude.{
  ℕ, ◌≡◌, ◌≢◌, ◌⊎◌, inl, inr, refl, sym, ap, ◌∙◌, Bool, true, false, ◌||◌, none, some, List, [],
  ◌∷◌, ◌==◌, ltb, if◌then◌else◌, err, Bool-cases, Option-cases, arith,
}
use ggs.Prelude.Int.{ℤ, pos, leb_ℤ, ltb_ℤ, ◌<ℤ◌, ◌-ℤ◌}
use ggs.Player.Items.{Item, Items, get_num, get_item, add, sub}
use ggs.Player.Items.Bounds.{IsValid, add-IsValid}
use ggs.Player.Items.Effects.{sub_effect}
use ggs.Game.{
  PlayerActor, items_key, invalid_packet, default_name, item_not_enough, use_item_resp, Sent, reply,
  reply_error, push, Handled, use_item, answer_use_item, handle_use_item, handle_modify_name,
  handle_heartbeat, init_items, init_player, wrap_req_func, check_login, Request, undecodable,
  unregistered, login_character, heartbeat, modify_name, use_item_req, handle,
}

module _ (configured : List (ℕ × ℤ)) (p : PlayerActor) where
  passes : (id : ℕ) (num : ℤ) → id ≢ 0 → pos 0 <ℤ num → (id == 0 || leb_ℤ num (pos 0)) ≡ false
  passes id num named more = ground arith

  check_login-wrap : (h : Handled) → p.is_login ≡ true → check_login p h ≡ wrap_req_func h
  unfolding check_login
  check_login-wrap h l = ap (λ b. if b then wrap_req_func h else ([], p)) l

  -- What `UseItem` makes of what `Sub` answers.
  after_sub : ℕ → (ℤ × Bool) × Items → (ℤ × Bool) × PlayerActor × List Item
  after_sub id ((left, taken), items) =
      if taken
      then (
        (left, true),
        record p { items = items; dirty = items_key ∷ p.dirty },
        (get_item items id).0 ∷ [],
      )
      else ((left, false), record p { items = items }, [])

  use_item_by :
      (id : ℕ) (num : ℤ) (r : (ℤ × Bool) × Items)
      → p.is_login ≡ true
      → (id == 0 || leb_ℤ num (pos 0)) ≡ false
      → sub p.items id num ≡ r
      → handle configured (use_item_req id num) p
        ≡ some (wrap_req_func (answer_use_item id num (after_sub id r)))
  unfolding handle handle_use_item use_item after_sub
  use_item_by id num r l g s = ap some (
      check_login-wrap (handle_use_item id num p) l
      ∙ ap
          (λ b.
            wrap_req_func (
              if b
              then (err invalid_packet, p, [])
              else answer_use_item id num (use_item id num p)))
          g
      ∙ ap
          (λ b. wrap_req_func (
            answer_use_item id num
              (if b then ((pos 0, false), p, []) else after_sub id (sub p.items id num))))
          g
      ∙ ap (λ x. wrap_req_func (answer_use_item id num (after_sub id x))) s)

  taken_effect :
      (id : ℕ) (num left : ℤ) (items : Items)
      → wrap_req_func (answer_use_item id num (after_sub id ((left, true), items))) ≡ (
        reply (use_item_resp id num left) ∷ push (get_item items id).0 ∷ [],
        record p { items = items; dirty = items_key ∷ p.dirty },
      )
  unfolding wrap_req_func after_sub
  taken_effect id num left items = refl

  refused_effect :
      (id : ℕ) (num left : ℤ)
      → wrap_req_func (answer_use_item id num (after_sub id ((left, false), p.items)))
        ≡ (reply_error item_not_enough ∷ [], p)
  unfolding wrap_req_func after_sub
  refused_effect id num left = refl

  -- A player who has logged in and asks to use a positive amount of an item either has less: then the
  -- answer says so and nothing changes. Or the answer says what is left, a push carries what GetItem
  -- finds of it after the removal, exactly the amount is gone from it and from no other, and the items
  -- are marked to be saved.
  pub use_item_effect :
      (id : ℕ) (num : ℤ) (j : ℕ)
      → IsValid p.items
      → p.is_login ≡ true
      → id ≢ 0
      → pos 0 <ℤ num
      → ((ltb_ℤ (get_num p.items id) num ≡ true)
          × (handle configured (use_item_req id num) p
              ≡ some (reply_error item_not_enough ∷ [], p)))
        ⊎ ((ltb_ℤ (get_num p.items id) num ≡ false)
            × (items : Items) × (handle configured (use_item_req id num) p
                ≡ some (
                  reply (use_item_resp id num (get_num p.items id -ℤ num))
                      ∷ push (get_item items id).0
                      ∷ [],
                  record p { items = items; dirty = items_key ∷ p.dirty },
                ))
            × (get_num items j
                ≡ (if id == j then get_num p.items id -ℤ num else get_num p.items j)))
  use_item_effect id num j v l named more =
      let g = passes id num named more in
      elim (sub_effect p.items v id named num more j) [
        | inl (less, s) ↦ inl (
          less,
          use_item_by id num ((get_num p.items id, false), p.items) l g s
              ∙ ap some (refused_effect id num (get_num p.items id)),
        )
        | inr (enough, s, e) ↦
            let items = (sub p.items id num).1 in
            inr (
              enough,
              items,
              use_item_by id num ((get_num p.items id -ℤ num, true), items) l g
                    (ap (λ x. (x, items)) s)
                  ∙ ap some (taken_effect id num (get_num p.items id -ℤ num) items),
              e,
            )
      ]

  abbrev pub is_login_req : Request → Bool
  is_login_req (login_character _ _) = true
  is_login_req _ = false

  logged_out : (h : Handled) → p.is_login ≡ false → check_login p h ≡ ([], p)
  unfolding check_login
  logged_out h l = ap (λ b. if b then wrap_req_func h else ([], p)) l

  -- Before a player has logged in, no request but the login changes anything.
  handle_logged_out :
      (r : Request)
      → p.is_login ≡ false
      → is_login_req r ≡ false
      → (sent : List Sent) × (handle configured r p ≡ some (sent, p))
  unfolding handle
  handle_logged_out undecodable l n = (_, refl)
  handle_logged_out unregistered l n = (_, refl)
  handle_logged_out (login_character tid named) l n = absurd (ground arith)
  handle_logged_out (heartbeat now) l n = ([], ap some (logged_out (handle_heartbeat now p) l))
  handle_logged_out (modify_name name) l n =
      ([], ap some (logged_out (handle_modify_name name p) l))
  handle_logged_out (use_item_req id num) l n =
      ([], ap some (logged_out (handle_use_item id num p) l))

init_items-IsValid :
    (configured : List (ℕ × ℤ)) (m m' : Items)
    → IsValid m
    → init_items configured m ≡ some m'
    → IsValid m'
unfolding init_items
init_items-IsValid [] m m' v h = let same : m ≡ m' = ground arith in subst IsValid same v
init_items-IsValid ((id, count) ∷ rest) m m' v h = elim (Option-cases (add m id count)) [
  | inl e ↦ absurd (ground arith)
  | inr (r, e) ↦
      let later : init_items rest r.1 ≡ some m' = ground arith in
      init_items-IsValid rest r.1 m' (add-IsValid m id count v e) later
]

-- Making a player that was already made changes nothing: what a player starts with is given once,
-- and what it starts with is valid.
init_player_once :
    (configured : List (ℕ × ℤ)) (p q : PlayerActor)
    → IsValid p.items
    → init_player configured p ≡ some q
    → (init_player configured q ≡ some q) × IsValid q.items
unfolding init_player
init_player_once configured p q v h = elim (Bool-cases (ltb 0 p.version)) [
  | inl e ↦
      let same : p ≡ q = ground arith in
      (
        ap
            (λ b. if b then some q else elim (init_items configured q.items) [
              | none ↦ none
              | some items ↦ some (record q {
                name = default_name q.id;
                items = items;
                version = 1;
                all_dirty = true;
              })
            ])
            (ap (λ x. ltb 0 x.version) (sym same) ∙ e),
        subst (λ x. IsValid x.items) same v,
      )
  | inr e ↦ elim (Option-cases (init_items configured p.items)) [
    | inl f ↦ absurd (ground arith)
    | inr (items, f) ↦
        let version : q.version ≡ 1 = ground arith in
        let given : items ≡ q.items = ground arith in
        (
          ap
              (λ b. if b then some q else elim (init_items configured q.items) [
                | none ↦ none
                | some items ↦ some (record q {
                  name = default_name q.id;
                  items = items;
                  version = 1;
                  all_dirty = true;
                })
              ])
              (ap (λ n. ltb 0 n) version),
          subst IsValid given (init_items-IsValid configured p.items items v f),
        )
  ]
]
