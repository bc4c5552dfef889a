-- ===== src/Net/Exchange/Agree.antt =====
-- The two sides of the exchange of keys end with the same key.
use ggs.Prelude.{
  ℕ, ◌^◌, ◌<◌, ◌≡◌, refl, sym, ap, ◌∙◌, false, Option, none, some, ◌++◌, inl, inr, arith, ltb,
  if◌then◌else◌, length, drop, drop-append_length, Result, ok, err, Bool-cases,
}
use ggs.Net.Write.{Bytes, Writer, IsWriter}
use ggs.Net.Frame.{Reader, NetError, read_packet-frame, frame, Sender, send_frame, send_frame_cases}
use ggs.Net.Frame
use ggs.Net.Packet.{PacketReadWriter, out_of_range}
use ggs.Net.Crypt.{
  Cryptor, IsCryptor, encrypt_and_write_packet, read_and_decrypt-frame, sent-encrypt_and_write,
}
use ggs.Net.Exchange.{
  Aes, session, create_aes_crypto, wrote, send_session, seal_session, reply, after_secret,
  agent_exchange, opened, finish, after_hello, client_exchange, IsKeyPair,
}

module _ (aes : Aes) (timeout : ℕ) (c : Writer) (key x : Bytes) (now : ℕ) (s s' : Sender c) where
  wrote_session :
      (w : Option (Result NetError (Unit {0}) × Sender c))
      → wrote aes timeout c key w ≡ some (session x, s')
      → (w ≡ some (ok tt, s')) × (x ≡ key)
  wrote_session none h = absurd (ground arith)
  wrote_session (some (err e, t)) h = absurd (ground arith)
  wrote_session (some (ok u, t)) h = (ground arith, ground arith)

  send_session_sealed :
      (r : Result ℕ Bytes)
      → send_session aes timeout c key now s r ≡ some (session x, s')
      → (sealed : Bytes) × (r ≡ ok sealed)
        × (Frame.write_packet c sealed now timeout s ≡ some (ok tt, s'))
        × (x ≡ key)
  send_session_sealed (err e) h = absurd (ground arith)
  send_session_sealed (ok sealed) h = let (w, e) = wrote_session _ h in (sealed, refl, w, e)

  seal_session_key :
      (o : Option (Result ℕ Cryptor))
      → seal_session aes timeout c key now s o ≡ some (session x, s')
      → (k : Cryptor) × (o ≡ some (ok k))
        × (send_session aes timeout c key now s (k.encrypt key) ≡ some (session x, s'))
  seal_session_key none h = absurd (ground arith)
  seal_session_key (some (err e)) h = absurd (ground arith)
  seal_session_key (some (ok k)) h = (k, refl, h)

created :
    (aes : Aes) (capacity : ℕ) (key : Bytes) (k : Cryptor)
    → create_aes_crypto aes capacity key ≡ some (ok k)
    → aes key ≡ ok k
created aes capacity key k h = elim (Bool-cases (ltb capacity 12)) [
  | inl e ↦ absurd (ground arith)
  | inr e ↦ ground arith
]

sent-write_packet :
    (c : Writer) (law : IsWriter c) (p : Bytes) (now timeout : ℕ) (s s' : Sender c)
    → length p < 2 ^ 32
    → Frame.write_packet c p now timeout s ≡ some (ok tt, s')
    → c.sent s'.w ≡ c.sent s.w ++ frame p
unfolding Frame.write_packet
sent-write_packet c law p now timeout s s' small h = elim (send_frame_cases c law p small s.w) [
  | inl (e, w', q) ↦ absurd (ground arith)
  | inr (w', q, g) ↦ let same : s'.w ≡ w' = ground arith in ap c.sent same ∙ g
]

dropped : (before after p : Bytes) → after ≡ before ++ p → drop (length before) after ≡ p
dropped before after p h =
    ap (drop (length before)) h ∙ drop-append_length (length before) before p refl

module _ (aes : Aes) (prw : PacketReadWriter) (timeout : ℕ) (c d : Writer) (public secret : Cryptor)
    (tmp key : Bytes) (pair : IsKeyPair public secret) (c_law : IsWriter c) (d_law : IsWriter d)
    (aes_law : (t : Bytes) (k : Cryptor) → aes t ≡ ok k → IsCryptor k)
    (small : prw.max_len < 2 ^ 32)
    (fits : (k : Cryptor) (sealed : Bytes)
      → aes tmp ≡ ok k
      → k.encrypt key ≡ ok sealed
      → out_of_range prw (length sealed) ≡ false)
    (room : length tmp ≡ 16) where
  -- The agent reads the client's secret, so that it ends with a session only by answering its key.
  agent_exchange_read :
      (q rest : Bytes) (capacity now : ℕ) (peer : Reader) (a a' : Sender d) (x : Bytes)
      → public.encrypt tmp ≡ ok q
      → length q < 2 ^ 32
      → peer.inbound ≡ frame q ++ rest
      → agent_exchange aes timeout d secret (some key) capacity now peer a ≡ some (session x, a')
      → seal_session aes timeout d key now a (create_aes_crypto aes capacity tmp)
        ≡ some (session x, a')
  unfolding agent_exchange
  agent_exchange_read q rest capacity now peer a a' x e l i h =
      sym (
        ap
          (λ (r : Result NetError Bytes × Reader).
            after_secret aes timeout d secret (some key) capacity now a r.0)
          (read_packet-frame q rest peer now timeout l i)
        ∙ ap (reply aes timeout d (some key) capacity now a) (pair.decrypt-encrypt tmp q e))
      ∙ h

  finish_session :
      (k : Cryptor) (sealed rest : Bytes) (peer : Reader) (now : ℕ)
      → aes tmp ≡ ok k
      → k.encrypt key ≡ ok sealed
      → peer.inbound ≡ frame sealed ++ rest
      → finish aes prw peer now (create_aes_crypto aes (length tmp) tmp) ≡ session key
  finish_session k sealed rest peer now e f i =
      let enough : ltb (length tmp) 12 ≡ false = ground arith in
      let bound : length sealed < 2 ^ 32 = ground (arith, fits k sealed e f) in
      ap (finish aes prw peer now) (ap (λ b. if b then none else some (aes tmp)) enough ∙ ap some e)
      ∙ ap (λ (r : Result NetError Bytes × Reader). opened aes prw r.0)
          (read_and_decrypt-frame prw k key sealed rest peer now (aes_law tmp k e) f bound
            (fits k sealed e f) i)

  -- When the client's secret has 16 bytes, the limits accept the encrypted session key, the secret has
  -- gone out without an error, the agent reads what went out and ends with a session, and the client
  -- reads what the agent sent, the client ends with the same session key, which is the one that the
  -- agent made.
  pub exchange_agrees :
      (now later capacity : ℕ) (s s' : Sender c) (a a' : Sender d) (agent_peer client_peer : Reader)
      (rest rest' x : Bytes)
      → encrypt_and_write_packet c prw public tmp now s ≡ some (ok tt, s')
      → agent_peer.inbound ≡ drop (length (c.sent s.w)) (c.sent s'.w) ++ rest
      → agent_exchange aes timeout d secret (some key) capacity later agent_peer a
        ≡ some (session x, a')
      → client_peer.inbound ≡ drop (length (d.sent a.w)) (d.sent a'.w) ++ rest'
      → (client_exchange aes prw c (ok public) tmp client_peer now s ≡ some (session x, s'))
        × (x ≡ key)
  unfolding client_exchange
  exchange_agrees now later capacity s s' a a' agent_peer client_peer rest rest' x sent i h j =
      let (q, e, l, g) = sent-encrypt_and_write c c_law prw public tmp now s s' small sent in
      let secret_in : agent_peer.inbound ≡ frame q ++ rest =
        i ∙ ap (λ b. b ++ rest) (dropped (c.sent s.w) (c.sent s'.w) (frame q) g) in
      let sealing = agent_exchange_read q rest capacity later agent_peer a a' x e l secret_in h in
      let (k, made, sending) = seal_session_key aes timeout d key x later a a' _ sealing in
      let ready = created aes capacity tmp k made in
      let (sealed, f, wrote, same) = send_session_sealed aes timeout d key x later a a' _ sending in
      let bound : length sealed < 2 ^ 32 = ground (arith, fits k sealed ready f) in
      let out = sent-write_packet d d_law sealed later timeout a a' bound wrote in
      let key_in : client_peer.inbound ≡ frame sealed ++ rest' =
        j ∙ ap (λ b. b ++ rest') (dropped (d.sent a.w) (d.sent a'.w) (frame sealed) out) in
      (
        ap (after_hello aes prw c tmp client_peer now) sent
            ∙ ap (λ o. some (o, s'))
                (finish_session k sealed rest' client_peer now ready f key_in
                  ∙ ap session (sym same)),
        same,
      )
