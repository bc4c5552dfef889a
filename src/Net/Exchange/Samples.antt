-- ===== src/Net/Exchange/Samples.antt =====
-- An exchange over connections that take all at once, and the theorem at work on it.
use mathlib.Core.Path.{subst}
use ggs.Prelude.{
  ℕ, ◌≡◌, refl, sym, ap, ◌∙◌, take-length, none, some, [], ◌∷◌, ◌++◌, arith, false, length, Result,
  ok, err,
}
use ggs.Net.Write.{Bytes, Writer, IsWriter, write, write_loop}
use ggs.Net.Frame.{
  read_after_length, Reader, frame, Sender, send_frame, write_or, read_full, put_uint32, uint32,
  read_payload_of,
}
use ggs.Net.Frame
use ggs.Net.Packet.{PacketReadWriter, out_of_range, write_packet}
use ggs.Net.Crypt.{Cryptor, IsCryptor, encrypt_and_write_packet}
use ggs.Net.Exchange.{Aes, session, agent_exchange, client_exchange, IsKeyPair}
use ggs.Net.Exchange.Agree.{exchange_agrees}

abbrev whole_writer : Writer
whole_writer = record {
  W = Bytes;
  write = λ p w. (record { n = length p; failed = none }, w ++ p);
  sent = λ w. w;
}

whole_writer-IsWriter : IsWriter whole_writer
whole_writer-IsWriter = record {
  at_most = λ p w. omega arith;
  progress = λ p w h e. h;
  sends = λ p w. ap (λ q. w ++ q) (sym (take-length (length p) p (omega arith)));
}

-- Each puts a byte of its own in front.
abbrev tagged : ℕ → Cryptor
tagged t = record { encrypt = λ p. ok (t ∷ p); decrypt = λ q. elim q [ [] ↦ err 1 | x ∷ p ↦ ok p ] }

tagged-IsCryptor : (t : ℕ) → IsCryptor (tagged t)
tagged-IsCryptor t = record { decrypt-encrypt = λ p q h. ground arith }

tagged-IsKeyPair : IsKeyPair (tagged 7) (tagged 7)
tagged-IsKeyPair = record { decrypt-encrypt = λ p q h. ground arith }

abbrev sample_aes : Aes
sample_aes key = ok (tagged 9)

abbrev made : {A : Type 0} → A → Result ℕ A
made x = ok x

ok_value : {A : Type 0} {x y : A} → made x ≡ made y → x ≡ y
ok_value {x = x} h = ap (λ r. elim r [ ok z ↦ z | err _ ↦ x ]) h

sample_aes-IsCryptor : (t : Bytes) (k : Cryptor) → sample_aes t ≡ ok k → IsCryptor k
sample_aes-IsCryptor t k h = subst IsCryptor (ok_value h) (tagged-IsCryptor 9)

abbrev limits : PacketReadWriter
limits = record { min_len = 2; max_len = 64; timeout = 5 }

abbrev tmp_key : Bytes
tmp_key = 1 ∷ 2 ∷ 3 ∷ 4 ∷ 5 ∷ 6 ∷ 7 ∷ 8 ∷ 9 ∷ 10 ∷ 11 ∷ 12 ∷ 13 ∷ 14 ∷ 15 ∷ 16 ∷ []

abbrev session_key : Bytes
session_key = 21 ∷ 22 ∷ 23 ∷ []

sealed_fits :
    (k : Cryptor) (sealed : Bytes)
    → sample_aes tmp_key ≡ ok k
    → k.encrypt session_key ≡ ok sealed
    → out_of_range limits (length sealed) ≡ false
sealed_fits k sealed h e =
    let q : made (9 ∷ session_key) ≡ made sealed =
      ap (λ (c : Cryptor). c.encrypt session_key) (ok_value h) ∙ e in
    ap (λ p. out_of_range limits (length p)) (sym (ok_value q))

abbrev fresh : Sender whole_writer
fresh = record { w = []; write_deadline = 0 }

abbrev hello_sent : Sender whole_writer
hello_sent = record { w = frame (7 ∷ tmp_key); write_deadline = 6 }

abbrev key_sent : Sender whole_writer
key_sent = record { w = frame (9 ∷ session_key); write_deadline = 7 }

hello_test :
    encrypt_and_write_packet whole_writer limits (tagged 7) tmp_key 1 fresh
    ≡ some (ok tt, hello_sent)
unfolding encrypt_and_write_packet write_packet send_frame write_or write write_loop put_uint32
hello_test = refl

agent_test :
    agent_exchange sample_aes 5 whole_writer
      (tagged 7)
      (some session_key)
      16
      2
      (record { inbound = frame (7 ∷ tmp_key); read_deadline = 0 })
      fresh
    ≡ some (session session_key, key_sent)
unfolding agent_exchange Frame.read_packet read_after_length read_full uint32 read_payload_of
    Frame.write_packet send_frame write_or write write_loop put_uint32
agent_test = refl

exchange_agrees_example :
    (client_exchange sample_aes limits whole_writer
        (ok (tagged 7))
        tmp_key
        (record { inbound = frame (9 ∷ session_key); read_deadline = 0 })
        1
        fresh
      ≡ some (session session_key, hello_sent))
    × (session_key ≡ session_key)
unfolding put_uint32
exchange_agrees_example =
    exchange_agrees sample_aes limits 5 whole_writer whole_writer (tagged 7) (tagged 7) tmp_key
      session_key tagged-IsKeyPair whole_writer-IsWriter whole_writer-IsWriter sample_aes-IsCryptor
      (omega arith) sealed_fits refl 1 2 16 fresh hello_sent fresh key_sent
      (record { inbound = frame (7 ∷ tmp_key); read_deadline = 0 })
      (record { inbound = frame (9 ∷ session_key); read_deadline = 0 }) [] [] session_key hello_test
      refl agent_test refl
