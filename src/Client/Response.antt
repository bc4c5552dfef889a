-- ===== src/Client/Response.antt =====
-- Which response a request gets.
use ggs.Prelude.{
  ℕ, ◌+◌, ◌%◌, ◌^◌, ◌≡◌, refl, ap, ◌∙◌, true, false, List, [], ◌∷◌, ◌++◌, ◌==◌, ltb, length,
  if◌then◌else◌, ok, err, if_elim, arith, Bool-cases, inl, inr,
}
use ggs.Client.{
  Message, not_connected, Client, gen_seq, clear_responses, without_first, on_stream_msg,
  on_stream_msgs, store_seq, await_response, send_req,
}

-- The first response in the channel stays the first.
first_kept :
    (late : List (ℕ × Message)) (c : Client) (m : Message) (ms : List Message)
    → c.responses ≡ m ∷ ms
    → (await_response (on_stream_msgs late c)).0 ≡ ok m
unfolding await_response on_stream_msgs on_stream_msg
first_kept [] c m ms h = rw (await_response, h) refl
first_kept ((seq, x) ∷ late) c m ms h = elim (Bool-cases (ltb 1 (length c.responses))) [
  | inl e ↦ rw (on_stream_msgs, on_stream_msg, e) (first_kept late c m ms h)
  | inr e ↦ elim (Bool-cases (c.req_seq == seq)) [
    | inr f ↦ rw (on_stream_msgs, on_stream_msg, e, f) (first_kept late c m ms h)
    | inl f ↦
        rw (on_stream_msgs, on_stream_msg, e, f)
          (first_kept late _ m (ms ++ (x ∷ [])) (ap (λ l. l ++ (x ∷ [])) h))
  ]
]

-- None of the messages answers request `seq`.
abbrev pub NoneFor : ℕ → List (ℕ × Message) → Type 0
NoneFor seq [] = Unit {0}
NoneFor seq ((s, m) ∷ rest) = ((seq == s) ≡ false) × NoneFor seq rest

own_taken :
    (seq : ℕ) (m : Message) (c : Client)
    → c.req_seq ≡ seq
    → c.responses ≡ []
    → (on_stream_msg seq m c).responses ≡ m ∷ []
unfolding on_stream_msg
own_taken seq m c q h = ground arith

other_skipped :
    (seq s : ℕ) (m : Message) (c : Client)
    → c.req_seq ≡ seq
    → (seq == s) ≡ false
    → on_stream_msg s m c ≡ c
unfolding on_stream_msg
other_skipped seq s m c q h =
    if_elim (λ x. x ≡ c) (ltb 1 (length c.responses)) (λ _. refl)
      (λ _. if_elim (λ x. x ≡ c) (c.req_seq == s) (λ e. absurd (ground arith)) (λ _. refl))

awaited :
    (seq : ℕ) (others rest : List (ℕ × Message)) (c : Client) (m : Message)
    → c.req_seq ≡ seq
    → c.responses ≡ []
    → NoneFor seq others
    → (await_response (on_stream_msgs (others ++ ((seq, m) ∷ rest)) c)).0 ≡ ok m
unfolding on_stream_msgs
awaited seq [] rest c m q h n = first_kept rest (on_stream_msg seq m c) m [] (own_taken seq m c q h)
awaited seq ((s, x) ∷ others) rest c m q h (e, n) =
    ap (λ d. (await_response (on_stream_msgs (others ++ ((seq, m) ∷ rest)) d)).0)
      (other_skipped seq s x c q e)
    ∙ awaited seq others rest c m q h n

send_req_sent :
    (early late : List (ℕ × Message)) (c : Client)
    → c.connected ≡ true
    → send_req early late true c
      ≡ await_response (on_stream_msgs late (store_seq (on_stream_msgs early (clear_responses c))))
unfolding send_req
send_req_sent early late c h =
    ap
      (λ b.
        if b
        then await_response
            (on_stream_msgs late (store_seq (on_stream_msgs early (clear_responses c))))
        else (err not_connected, c))
      h

seq_cleared : (c : Client) → (clear_responses c).seq_incr ≡ c.seq_incr
unfolding clear_responses
seq_cleared c = go c.responses
  where
    go : (l : List Message) → (without_first l c).seq_incr ≡ c.seq_incr
    go [] = refl
    go (m ∷ ms) = refl

-- A request that is sent, with at most one old response in the channel and nothing arriving before
-- its number is stored, gets the first response that bears its number, whatever else arrives.
send_req_own :
    (others rest : List (ℕ × Message)) (c : Client) (m : Message)
    → c.connected ≡ true
    → (clear_responses c).responses ≡ []
    → NoneFor (gen_seq c) others
    → (send_req [] (others ++ ((gen_seq c, m) ∷ rest)) true c).0 ≡ ok m
unfolding store_seq on_stream_msgs
send_req_own others rest c m h e n =
    ap (λ r. r.0) (send_req_sent [] (others ++ ((gen_seq c, m) ∷ rest)) c h)
    ∙ awaited (gen_seq c) others rest (store_seq (clear_responses c)) m
        (ap (λ n. (n + 1) % 2 ^ 32) (seq_cleared c)) e n

-- When the response to an earlier request, which timed out, arrives after the channel was emptied and
-- before the new number is stored, the new request gets that response, whatever arrives later.
send_req_stale :
    (late : List (ℕ × Message)) (c : Client) (m : Message)
    → c.connected ≡ true
    → c.responses ≡ []
    → (send_req ((c.req_seq, m) ∷ []) late true c).0 ≡ ok m
unfolding store_seq on_stream_msgs clear_responses
send_req_stale late c m h e =
    let cleared : clear_responses c ≡ c = ap (λ l. without_first l c) e in
    ap (λ r. r.0) (send_req_sent ((c.req_seq, m) ∷ []) late c h)
    ∙ first_kept late (store_seq (on_stream_msg c.req_seq m (clear_responses c))) m []
        (ap (λ d. (on_stream_msg c.req_seq m d).responses) cleared ∙ own_taken c.req_seq m c refl e)
