-- ===== src/Net/Crypt.antt =====
-- `PacketReadWriterWithCryptor`: encrypted packets (internal/base/net/packet.go).
--
-- The cryptor is the AES or RSA tool of a library: a parameter, whose one law is that what it
-- encrypts it decrypts.
use ggs.Prelude.{
  ℕ, ◌+◌, ◌^◌, ◌<◌, ◌≡◌, refl, ap, ◌∙◌, inl, inr, false, Option, some, ◌++◌, arith, length, drop,
  Result, ok, err,
}
use ggs.Net.Write.{Bytes, Writer, IsWriter}
use ggs.Net.Frame.{Reader, NetError, decrypt_packet, encrypt_packet, Sender, frame}
use ggs.Net.Packet.{
  PacketReadWriter, out_of_range, read_packet, read_packet-frame, write_packet, write_packet_cases,
  read_packet-write_packet,
}

-- The two halves of a key, with an error's text as a number.
pub record Cryptor : Type 0 where
  pub encrypt : Bytes → Result ℕ Bytes
  pub decrypt : Bytes → Result ℕ Bytes

pub record IsCryptor (k : Cryptor) : Type 0 where
  pub decrypt-encrypt : (p q : Bytes) → k.encrypt p ≡ ok q → k.decrypt q ≡ ok p

unfoldable pub decrypted : Result ℕ Bytes → Reader → Result NetError Bytes × Reader
decrypted (ok p) c = (ok p, c)
decrypted (err e) c = (err (decrypt_packet e), c)

unfoldable pub decrypt_read :
    Cryptor → Result NetError Bytes × Reader → Result NetError Bytes × Reader
unfolding decrypted
decrypt_read k (err e, c) = (err e, c)
decrypt_read k (ok p, c) = decrypted (k.decrypt p) c

unfoldable pub read_and_decrypt_packet :
    PacketReadWriter → Cryptor → Reader → ℕ → Result NetError Bytes × Reader
unfolding decrypt_read
read_and_decrypt_packet prw k c now = decrypt_read k (read_packet prw c now)

-- The frame of an encrypted packet is read back as the packet.
pub read_and_decrypt-frame :
    (prw : PacketReadWriter) (k : Cryptor) (p q rest : Bytes) (peer : Reader) (now : ℕ)
    → IsCryptor k
    → k.encrypt p ≡ ok q
    → length q < 2 ^ 32
    → out_of_range prw (length q) ≡ false
    → peer.inbound ≡ frame q ++ rest
    → read_and_decrypt_packet prw k peer now
      ≡ (ok p, record { inbound = rest; read_deadline = now + prw.timeout })
unfolding read_and_decrypt_packet decrypt_read decrypted
read_and_decrypt-frame prw k p q rest peer now law e small fits i =
    ap (decrypt_read k) (read_packet-frame prw q rest peer now small fits i)
    ∙ ap (λ r. decrypted r (record { inbound = rest; read_deadline = now + prw.timeout }))
        (law.decrypt-encrypt p q e)

module _ (c : Writer) where
  unfoldable pub encrypt_and_write_packet :
      PacketReadWriter
      → Cryptor
      → Bytes
      → ℕ
      → Sender c
      → Option (Result NetError (Unit {0}) × Sender c)
  encrypt_and_write_packet prw k p now s = elim (k.encrypt p) [
    | err e ↦ some (err (encrypt_packet e), s)
    | ok q ↦ write_packet c prw q now s
  ]

  -- A packet that was encrypted and sent without an error is what the peer decrypts from the
  -- bytes that have gone out; all that follows them stays unread.
  pub read_and_decrypt-encrypt_and_write :
      (law : IsWriter c) (prw : PacketReadWriter) (k : Cryptor) (p : Bytes) (now : ℕ)
      (s s' : Sender c) (peer : Reader) (rest : Bytes) (later : ℕ)
      → IsCryptor k
      → prw.max_len < 2 ^ 32
      → encrypt_and_write_packet prw k p now s ≡ some (ok tt, s')
      → peer.inbound ≡ drop (length (c.sent s.w)) (c.sent s'.w) ++ rest
      → read_and_decrypt_packet prw k peer later
        ≡ (ok p, record { inbound = rest; read_deadline = later + prw.timeout })
  unfolding encrypt_and_write_packet read_and_decrypt_packet
  read_and_decrypt-encrypt_and_write law prw k p now s s' peer rest later kk small h i =
      by_encrypt (k.encrypt p) refl
    where
      by_encrypt :
          (e : Result ℕ Bytes)
          → k.encrypt p ≡ e
          → decrypt_read k (read_packet prw peer later)
            ≡ (ok p, record { inbound = rest; read_deadline = later + prw.timeout })
      by_encrypt (err e) q = ground arith
      by_encrypt (ok x) q = ground (
        arith,
        kk.decrypt-encrypt p x,
        read_packet-write_packet c law prw small x now s s' peer rest later,
      )

  -- A packet that was encrypted and sent without an error has gone out as the frame of its
  -- encryption.
  pub sent-encrypt_and_write :
      (law : IsWriter c) (prw : PacketReadWriter) (k : Cryptor) (p : Bytes) (now : ℕ)
      (s s' : Sender c)
      → prw.max_len < 2 ^ 32
      → encrypt_and_write_packet prw k p now s ≡ some (ok tt, s')
      → (q : Bytes) × (k.encrypt p ≡ ok q)
        × (length q < 2 ^ 32)
        × (c.sent s'.w ≡ c.sent s.w ++ frame q)
  unfolding encrypt_and_write_packet
  sent-encrypt_and_write law prw k p now s s' small h = by_encrypt (k.encrypt p) refl
    where
      by_encrypt :
          (e : Result ℕ Bytes)
          → k.encrypt p ≡ e
          → (q : Bytes) × (k.encrypt p ≡ ok q)
            × (length q < 2 ^ 32)
            × (c.sent s'.w ≡ c.sent s.w ++ frame q)
      by_encrypt (err e) r = absurd (ground arith)
      by_encrypt (ok q) r = elim (write_packet_cases c law prw small q now s) [
        | inl (e, w) ↦ absurd (ground arith)
        | inr (inl (e, x, _, w)) ↦ absurd (ground arith)
        | inr (inr (e, t, w, g)) ↦
            let same : s' ≡ t = ground arith in
            (q, r, ground arith, ap (λ (u : Sender c). c.sent u.w) same ∙ g)
      ]
