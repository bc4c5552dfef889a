-- ===== src/Net/Packet.antt =====
-- `PacketReadWriter`: packets whose length lies between two limits (internal/base/net/packet.go).
use ggs.Prelude.{
  ℕ, zero, suc, drop, length-take_le, drop-append_length, ◌+◌, ◌^◌, ◌≤◌, ◌<◌, ◌≡◌, refl, ap, ◌∙◌,
  ◌⊎◌, ◌||◌, inl, inr, Bool, true, false, Option, none, some, ◌++◌, append_assoc, arith, ltb,
  if◌then◌else◌, Bool-cases, length, Result, ok, err,
}
use ggs.Net.Write.{Bytes, Writer, IsWriter}
use ggs.Net.Frame.{
  Reader, ReadError, NetError, read_length, invalid_packet_len, read_full, put_uint32, uint32,
  read_payload_of, frame, Sender, send_frame, send_frame_cases, read_full-append, uint32-put_uint32,
}

pub record PacketReadWriter : Type 0 where
  pub min_len : ℕ  -- uint32
  pub max_len : ℕ  -- uint32
  pub timeout : ℕ

-- `none` is the panic on limits in the wrong order.
abbrev pub new_packet_read_writer : ℕ → ℕ → ℕ → Option PacketReadWriter
new_packet_read_writer min_len max_len timeout =
    if ltb max_len min_len
    then none
    else some (record { min_len = min_len; max_len = max_len; timeout = timeout })

abbrev pub out_of_range : PacketReadWriter → ℕ → Bool
out_of_range prw n = ltb n prw.min_len || ltb prw.max_len n

unfoldable pub read_checked :
    PacketReadWriter → Result ReadError Bytes × Reader → Result NetError Bytes × Reader
unfolding read_payload_of
read_checked prw (err e, c) = (err (read_length e), c)
read_checked prw (ok l, c) =
    if out_of_range prw (uint32 l)
    then (err (invalid_packet_len (uint32 l)), c)
    else read_payload_of (read_full (uint32 l) c)

-- `(*PacketReadWriter).ReadPacket`
unfoldable pub read_packet : PacketReadWriter → Reader → ℕ → Result NetError Bytes × Reader
unfolding read_checked
read_packet prw c now =
    read_checked prw (read_full 4 (record c { read_deadline = now + prw.timeout }))

module _ (c : Writer) where
  -- `(*PacketReadWriter).WritePacket`. `len(p)` is an int, as wide as the limits or wider.
  unfoldable pub write_packet :
      PacketReadWriter → Bytes → ℕ → Sender c → Option (Result NetError (Unit {0}) × Sender c)
  write_packet prw p now s =
      let d = now + prw.timeout in
      if out_of_range prw (length p)
      then some (err (invalid_packet_len (length p)), record s { write_deadline = d })
      else elim (send_frame c p s.w) [
        | none ↦ none
        | some r ↦ some (r.0, record { w = r.1; write_deadline = d })
      ]

-- What is in range is read back from its frame, and nothing behind the frame is touched.
pub read_packet-frame :
    (prw : PacketReadWriter) (p rest : Bytes) (c : Reader) (now : ℕ)
    → length p < 2 ^ 32
    → out_of_range prw (length p) ≡ false
    → c.inbound ≡ frame p ++ rest
    → read_packet prw c now ≡ (ok p, record { inbound = rest; read_deadline = now + prw.timeout })
unfolding read_packet
read_packet-frame prw p rest c now small fits e = rw (
  e,
  append_assoc (put_uint32 (length p)) p rest,
  read_full-append 4 (put_uint32 (length p)) (p ++ rest) (now + prw.timeout)
      (unfold put_uint32 in refl),
  uint32-put_uint32 (length p) small,
  fits,
  read_full-append (length p) p rest (now + prw.timeout) refl,
)

length-read_full : (n : ℕ) (c : Reader) (p : Bytes) → (read_full n c).0 ≡ ok p → length p ≡ n
unfolding read_full
length-read_full zero c p h = ground arith
length-read_full (suc n) c p h = ground (arith, length-take_le (suc n) c.inbound)

read_checked_bounds :
    (prw : PacketReadWriter) (r : Result ReadError Bytes × Reader) (p : Bytes)
    → (read_checked prw r).0 ≡ ok p
    → (prw.min_len ≤ length p) × (length p ≤ prw.max_len)
unfolding read_checked
read_checked_bounds prw (err e, c) p h = cc
read_checked_bounds prw (ok l, c) p h = ground (arith, length-read_full (uint32 l) c p)

-- A packet that `ReadPacket` returns has a length within the limits, whatever the peer sent.
pub read_packet_bounds :
    (prw : PacketReadWriter) (c : Reader) (now : ℕ) (p : Bytes)
    → (read_packet prw c now).0 ≡ ok p
    → (prw.min_len ≤ length p) × (length p ≤ prw.max_len)
unfolding read_packet
read_packet_bounds prw c now p h = read_checked_bounds prw _ p h

module _ (c : Writer) (law : IsWriter c) (prw : PacketReadWriter)
    (small : prw.max_len < 2 ^ 32) where
  -- `WritePacket` always returns. It refuses a packet whose length is out of range and writes
  -- nothing; a packet in range fails on the writer's error, or else its frame has gone out.
  pub write_packet_cases :
      (p : Bytes) (now : ℕ) (s : Sender c)
      → ((out_of_range prw (length p) ≡ true)
          × (write_packet c prw p now s
              ≡ some (
                err (invalid_packet_len (length p)),
                record s { write_deadline = now + prw.timeout },
              )))
        ⊎ ((out_of_range prw (length p) ≡ false)
            × (e : NetError) × (s' : Sender c) × (write_packet c prw p now s ≡ some (err e, s')))
        ⊎ ((out_of_range prw (length p) ≡ false)
            × (s' : Sender c) × (write_packet c prw p now s ≡ some (ok tt, s'))
            × (c.sent s'.w ≡ c.sent s.w ++ frame p))
  unfolding write_packet
  write_packet_cases p now s = elim (Bool-cases (out_of_range prw (length p))) [
    | inl e ↦ inl (e, rw e refl)
    | inr e ↦ elim (send_frame_cases c law p (ground arith) s.w) [
      | inl (x, w', q) ↦
          inr (inl (e, x, record { w = w'; write_deadline = now + prw.timeout }, rw (e, q) refl))
      | inr (w', q, h) ↦
          inr (inr (e, record { w = w'; write_deadline = now + prw.timeout }, rw (e, q) refl, h))
    ]
  ]

  -- When `WritePacket` reports no error, a peer with the same limits reads exactly this packet
  -- from the bytes that have gone out, and leaves all that follows unread.
  pub read_packet-write_packet :
      (p : Bytes) (now : ℕ) (s s' : Sender c) (peer : Reader) (rest : Bytes) (later : ℕ)
      → write_packet c prw p now s ≡ some (ok tt, s')
      → peer.inbound ≡ drop (length (c.sent s.w)) (c.sent s'.w) ++ rest
      → read_packet prw peer later
        ≡ (ok p, record { inbound = rest; read_deadline = later + prw.timeout })
  read_packet-write_packet p now s s' peer rest later h i = elim (write_packet_cases p now s) [
    | inl (e, q) ↦ cc
    | inr (inl (e, x, _, q)) ↦ cc
    | inr (inr (e, t, q, g)) ↦
        let same : s' ≡ t = ground arith in
        read_packet-frame prw p rest peer later (ground arith) e (
          i
          ∙ ap (λ b. b ++ rest)
              (ap (λ (u : Sender c). drop (length (c.sent s.w)) (c.sent u.w)) same
                ∙ ap (drop (length (c.sent s.w))) g
                ∙ drop-append_length (length (c.sent s.w)) (c.sent s.w) (frame p) refl))
  ]
