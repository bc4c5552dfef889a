-- ===== src/Client/Stream/Delivers.antt =====
-- What the loop that reads a stream tells its handler.
use ggs.Prelude.{
  ℕ, zero, suc, ◌+◌, ◌^◌, ◌<◌, ◌≡◌, refl, sym, ap, ◌∙◌, Bool, true, false, Option, none, some, List,
  [], ◌∷◌, ◌++◌, append_assoc, append-nil, arith, if◌then◌else◌, length, drop, Result, ok, err,
}
use ggs.Net.Write.{Bytes}
use ggs.Net.Frame.{
  Reader, NetError, read_length, eof, frame, read_full, read_after_length, read_packet-frame,
}
use ggs.Net.Frame
use ggs.Net.Packet.{PacketReadWriter, out_of_range, read_checked}
use ggs.Net.Packet
use ggs.Net.Crypt.{
  Cryptor, IsCryptor, read_and_decrypt_packet, read_and_decrypt-frame, decrypt_read,
}
use mathlib.Core.Path.{subst}
use ggs.Client.Stream.{Msg, Stream, read_failed, close, read_packet, msg_of, read_round, read_loop}

read_full_nothing :
    (b : Bytes) (d : ℕ)
    → b ≡ []
    → read_full 4 (record { inbound = b; read_deadline = d })
      ≡ (err eof, record { inbound = drop 4 b; read_deadline = d })
unfolding read_full
read_full_nothing [] d h = refl
read_full_nothing (x ∷ b) d h = absurd (ground arith)

-- A packet, what of it is in its frame, and the message that it decodes to.
pub record Sent (M : Type 0) : Type 0 where
  pub packet : Bytes
  pub sealed : Bytes
  pub message : M

module _ {M : Type 0} (prw : PacketReadWriter) (timeout : ℕ) (head_pt head_seq : Bytes → ℕ)
    (decode : Bytes → Result ℕ M) where
  -- What the frame of a packet holds: the packet itself, or what the key makes of it, if that is in
  -- the limits.
  abbrev pub IsSealed : Option Cryptor → Bytes → Bytes → Type 0
  IsSealed none p q = q ≡ p
  IsSealed (some k) p q = IsCryptor k × (k.encrypt p ≡ ok q) × (out_of_range prw (length q) ≡ false)

  abbrev pub AreSealed : Option Cryptor → List (Sent M) → Type 0
  AreSealed k [] = Unit {0}
  AreSealed k (x ∷ l) =
      (IsSealed k x.packet x.sealed × (length x.sealed < 2 ^ 32) × (decode x.packet ≡ ok x.message))
      × AreSealed k l

  abbrev pub frames : List (Sent M) → Bytes
  frames [] = []
  frames (x ∷ l) = frame x.sealed ++ frames l

  abbrev pub messages : List (Sent M) → List (Msg M)
  messages [] = []
  messages (x ∷ l) = msg_of prw timeout head_pt head_seq decode x.packet x.message ∷ messages l

  -- The message of a frame is read whole.
  read_packet_sealed :
      (k : Option Cryptor) (p q rest : Bytes) (peer : Reader) (now : ℕ)
      → IsSealed k p q
      → length q < 2 ^ 32
      → peer.inbound ≡ frame q ++ rest
      → (d : ℕ) × (read_packet prw timeout k peer now
          ≡ (ok p, record { inbound = rest; read_deadline = d }))
  read_packet_sealed none p q rest peer now w small i = (
    now + timeout,
    read_packet-frame q rest peer now timeout small i
        ∙ ap (λ x. (ok x, record { inbound = rest; read_deadline = now + timeout })) w,
  )
  read_packet_sealed (some k) p q rest peer now (law, e, fits) small i =
      (now + prw.timeout, read_and_decrypt-frame prw k p q rest peer now law e small fits i)

  -- With no byte left a read fails.
  read_packet_nothing :
      (k : Option Cryptor) (peer : Reader) (now : ℕ)
      → peer.inbound ≡ []
      → (r : Reader) × (read_packet prw timeout k peer now ≡ (err (read_length eof), r))
  unfolding Frame.read_packet read_after_length read_and_decrypt_packet decrypt_read
      Packet.read_packet read_checked
  read_packet_nothing none peer now i =
      let d = now + timeout in
      (
        record { inbound = drop 4 peer.inbound; read_deadline = d },
        ap read_after_length (read_full_nothing peer.inbound d i),
      )
  read_packet_nothing (some k) peer now i =
      let d = now + prw.timeout in
      (
        record { inbound = drop 4 peer.inbound; read_deadline = d },
        ap (λ r. decrypt_read k (read_checked prw r)) (read_full_nothing peer.inbound d i),
      )

  abbrev delivered : Sent M → Reader → Stream M → Stream M
  delivered x r s = record s {
    reader = r;
    on_msg = s.on_msg ++ (msg_of prw timeout head_pt head_seq decode x.packet x.message ∷ []);
  }

  read_round-delivers :
      (x : Sent M) (rest : Bytes) (s : Stream M) (now : ℕ)
      → s.closed ≡ false
      → IsSealed s.cryptor x.packet x.sealed
      → length x.sealed < 2 ^ 32
      → decode x.packet ≡ ok x.message
      → s.reader.inbound ≡ frame x.sealed ++ rest
      → (d : ℕ) × (read_round prw timeout head_pt head_seq decode now s
          ≡ (true, delivered x (record { inbound = rest; read_deadline = d }) s))
  unfolding read_round
  read_round-delivers x rest s now o w small e i =
      let (d, f) = read_packet_sealed s.cryptor x.packet x.sealed rest s.reader now w small i in
      (d, rw (o, f, e) refl)

  abbrev ended : Reader → Stream M → Stream M
  ended r s = record s {
    reader = r;
    closed = true;
    conn_closes = s.conn_closes + 1;
    on_close = s.on_close ++ (read_failed (read_length eof) ∷ []);
  }

  read_round-ends :
      (s : Stream M) (now : ℕ)
      → s.closed ≡ false
      → s.reader.inbound ≡ []
      → (r : Reader) × (read_round prw timeout head_pt head_seq decode now s ≡ (false, ended r s))
  unfolding read_round close
  read_round-ends s now o i =
      let (r, f) = read_packet_nothing s.cryptor s.reader now i in (r, rw (o, f) refl)

  -- The loop has ended: the handler got the messages, then the end of the input, and the connection
  -- was closed.
  abbrev pub IsDelivered : Stream M → List (Msg M) → Bool × Stream M → Type 0
  IsDelivered s ms r =
      (r.0 ≡ false)
      × (r.1.on_msg ≡ s.on_msg ++ ms)
      × (r.1.on_close ≡ s.on_close ++ (read_failed (read_length eof) ∷ []))
      × (r.1.closed ≡ true)
      × (r.1.conn_closes ≡ s.conn_closes + 1)

  -- While the stream is open, the frames of packets that decode, and nothing behind them, end the loop
  -- in a round for each and one more: the handler gets the messages in their order, then the end of
  -- the input once, and the connection is closed once.
  pub read_loop-delivers :
      (l : List (Sent M)) (s : Stream M) (clock : ℕ → ℕ) (n : ℕ)
      → length l < n
      → s.closed ≡ false
      → AreSealed s.cryptor l
      → s.reader.inbound ≡ frames l
      → IsDelivered s (messages l) (read_loop prw timeout head_pt head_seq decode clock n s)
  unfolding read_loop
  read_loop-delivers l s clock zero h o w i = absurd (omega arith)
  read_loop-delivers [] s clock (suc n) h o w i =
      let (r, f) = read_round-ends s (clock n) o i in
      subst
        (λ (x : Bool × Stream M).
          IsDelivered s [] (
            if x.0
            then read_loop prw timeout head_pt head_seq decode clock n x.1
            else (false, x.1)))
        (sym f) (refl, sym (append-nil s.on_msg), refl, refl, refl)
  read_loop-delivers (x ∷ l) s clock (suc n) h o ((a, small, e), w) i =
      let (d, f) = read_round-delivers x (frames l) s (clock n) o a small e i in
      let t = delivered x (record { inbound = frames l; read_deadline = d }) s in
      let (g, m, c, e', n') = read_loop-delivers l t clock n (omega arith) o w refl in
      subst
        (λ (y : Bool × Stream M).
          IsDelivered s (messages (x ∷ l)) (
            if y.0
            then read_loop prw timeout head_pt head_seq decode clock n y.1
            else (false, y.1)))
        (sym f)
        (
          g,
          m
              ∙ append_assoc s.on_msg
                  (msg_of prw timeout head_pt head_seq decode x.packet x.message ∷ []) (messages l),
          c,
          e',
          n',
        )
