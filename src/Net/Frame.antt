-- ===== src/Net/Frame.antt =====
-- `ReadPacket` and `WritePacket`, the free functions (internal/base/net/packet.go).
use ggs.Prelude.{
  ℕ, zero, suc, ◌+◌, ◌*◌, ◌/◌, ◌%◌, ◌^◌, ◌<◌, ◌≡◌, refl, ap, ◌∙◌, ◌⊎◌, inl, inr, Option, none, some,
  [], ◌∷◌, ◌++◌, append_assoc, arith, ltb, if◌then◌else◌, length, take, drop, take-append_length,
  drop-append_length, length-append, Result, ok, err,
}
use ggs.Net.Write.{Bytes, u32, Writer, IsWriter, write, write_cases}

-- `io.ReadFull` fails with EOF if there is no byte at all, and with ErrUnexpectedEOF if there are
-- some but not enough. A deadline that passes ends the bytes too.
pub data ReadError : Type 0 where
  eof unexpected_eof : ReadError

-- The errors of this file, with what `WithMessage` puts in front.
pub data NetError : Type 0 where
  read_length read_payload : ReadError → NetError
  write_length write_payload : ℕ → NetError
  invalid_packet_len : ℕ → NetError
  decrypt_packet encrypt_packet : ℕ → NetError

-- The side of a connection that is read.
pub record Reader : Type 0 where
  pub inbound : Bytes
  pub read_deadline : ℕ

-- `io.ReadFull(conn, buf)` with `len(buf)` = `n`; what was read before an error is gone.
unfoldable pub read_full : ℕ → Reader → Result ReadError Bytes × Reader
read_full zero c = (ok [], c)
read_full (suc n) c =
    let rest = record c { inbound = drop (suc n) c.inbound } in
    elim c.inbound [
      | [] ↦ (err eof, rest)
      | _ ↦
          if ltb (length c.inbound) (suc n)
          then (err unexpected_eof, rest)
          else (ok (take (suc n) c.inbound), rest)
    ]

-- `binary.BigEndian.PutUint32` and `Uint32`.
unfoldable pub put_uint32 : ℕ → Bytes
put_uint32 n = n / 2 ^ 24 % 256 ∷ n / 2 ^ 16 % 256 ∷ n / 2 ^ 8 % 256 ∷ n % 256 ∷ []

unfoldable pub uint32 : Bytes → ℕ
uint32 (a ∷ b ∷ c ∷ d ∷ []) = a * 2 ^ 24 + b * 2 ^ 16 + c * 2 ^ 8 + d
uint32 _ = 0

unfoldable pub read_payload_of : Result ReadError Bytes × Reader → Result NetError Bytes × Reader
read_payload_of (ok p, c) = (ok p, c)
read_payload_of (err e, c) = (err (read_payload e), c)

unfoldable pub read_after_length : Result ReadError Bytes × Reader → Result NetError Bytes × Reader
unfolding read_payload_of
read_after_length (err e, c) = (err (read_length e), c)
read_after_length (ok l, c) = read_payload_of (read_full (uint32 l) c)

unfoldable pub read_packet : Reader → ℕ → ℕ → Result NetError Bytes × Reader
unfolding read_after_length
read_packet c now timeout =
    read_after_length (read_full 4 (record c { read_deadline = now + timeout }))

-- What a packet is on the wire.
abbrev pub frame : Bytes → Bytes
frame p = put_uint32 (length p) ++ p

pub uint32-put_uint32 : (n : ℕ) → n < 2 ^ 32 → uint32 (put_uint32 n) ≡ n
unfolding uint32 put_uint32
uint32-put_uint32 n h = omega arith

pub read_full-append :
    (n : ℕ) (p rest : Bytes) (d : ℕ)
    → length p ≡ n
    → read_full n (record { inbound = p ++ rest; read_deadline = d })
      ≡ (ok p, record { inbound = rest; read_deadline = d })
unfolding read_full
read_full-append zero [] rest d h = refl
read_full-append zero (x ∷ p) rest d h = absurd (omega arith)
read_full-append (suc n) [] rest d h = absurd (omega arith)
read_full-append (suc n) (x ∷ p) rest d h =
    ground (arith, length-append p rest, take-append_length n p rest, drop-append_length n p rest)

-- A frame at the head of the inbound bytes is read whole, and nothing behind it is touched.
pub read_packet-frame :
    (p rest : Bytes) (c : Reader) (now timeout : ℕ)
    → length p < 2 ^ 32
    → c.inbound ≡ frame p ++ rest
    → read_packet c now timeout ≡ (ok p, record { inbound = rest; read_deadline = now + timeout })
unfolding read_packet
read_packet-frame p rest c now timeout small e = rw (
  e,
  append_assoc (put_uint32 (length p)) p rest,
  read_full-append 4 (put_uint32 (length p)) (p ++ rest) (now + timeout)
      (unfold put_uint32 in refl),
  uint32-put_uint32 (length p) small,
  read_full-append (length p) p rest (now + timeout) refl,
)

module _ (c : Writer) where
  open c use {W, sent}

  -- `if err := write(conn, b); err != nil { return WithMessage(err, text) }`, and what follows.
  unfoldable pub write_or :
      (ℕ → NetError)
      → Bytes
      → (W → Option (Result NetError (Unit {0}) × W))
      → W
      → Option (Result NetError (Unit {0}) × W)
  write_or text b next w = elim (write c b w) [
    | none ↦ none
    | some r ↦ elim r.0 [ none ↦ next r.1 | some e ↦ some (err (text e), r.1) ]
  ]

  -- The length and then the payload, as both `WritePacket`s write them.
  unfoldable pub send_frame : Bytes → W → Option (Result NetError (Unit {0}) × W)
  unfolding write_or
  send_frame p =
      write_or write_length (put_uint32 (u32 (length p)))
        (write_or write_payload p (λ w. some (ok tt, w)))

  -- The side of a connection that is written.
  pub record Sender : Type 0 where
    pub w : W
    pub write_deadline : ℕ

  unfoldable pub write_packet :
      Bytes → ℕ → ℕ → Sender → Option (Result NetError (Unit {0}) × Sender)
  write_packet p now timeout s = elim (send_frame p s.w) [
    | none ↦ none
    | some r ↦ some (r.0, record { w = r.1; write_deadline = now + timeout })
  ]

  module _ (law : IsWriter c) (p : Bytes) (small : length p < 2 ^ 32) where
    -- Sending a frame returns, and without an error the frame is what has gone out.
    pub send_frame_cases :
        (w : W)
        → ((e : NetError) × (w' : W) × (send_frame p w ≡ some (err e, w')))
          ⊎ ((w' : W) × (send_frame p w ≡ some (ok tt, w')) × (sent w' ≡ sent w ++ frame p))
    unfolding send_frame
    send_frame_cases w =
        let fits : u32 (length p) ≡ length p = omega arith in
        rw (fits, send_frame)
          (elim (write_cases c law (put_uint32 (length p)) w (unfold put_uint32 in omega arith)) [
            | inl (e, w', q) ↦ rw (q, write_or) (inl (write_length e, w', refl))
            | inr (w', q, s) ↦ elim (write_cases c law p w' small) [
              | inl (e, w'', q') ↦
                  rw (q, write_or) (rw (q', write_or) (inl (write_payload e, w'', refl)))
              | inr (w'', q', s') ↦
                  rw (q, write_or)
                    (rw (q', write_or)
                      (inr (
                        w'',
                        refl,
                        s' ∙ ap (λ b. b ++ p) s ∙ append_assoc (sent w) (put_uint32 (length p)) p,
                      )))
            ]
          ])
