-- ===== src/Net/Samples.antt =====
-- A connection that takes three bytes at a time, a small cipher, and the theorems at work on them.
use ggs.Prelude.{
  ℕ, ◌≤◌, ◌≡◌, refl, none, some, [], ◌∷◌, ◌++◌, arith, ltb, if◌then◌else◌, length, take, Result, ok,
  err,
}
use ggs.Net.Write.{Bytes, Written, Writer, IsWriter, write, write_loop}
use ggs.Net.Frame.{
  Reader, Sender, send_frame, write_or, read_full, put_uint32, uint32, read_payload_of,
}
use ggs.Net.Packet.{
  PacketReadWriter, read_checked, read_packet, write_packet, read_packet_bounds,
  read_packet-write_packet,
}
use ggs.Net.Crypt.{
  Cryptor, IsCryptor, encrypt_and_write_packet, read_and_decrypt_packet,
  read_and_decrypt-encrypt_and_write,
}

abbrev at_most_3 : ℕ → ℕ
at_most_3 n = if ltb n 3 then n else 3

abbrev slow_write : Bytes → Bytes → Written × Bytes
slow_write p w =
    (record { n = at_most_3 (length p); failed = none }, w ++ take (at_most_3 (length p)) p)

abbrev slow_writer : Writer
slow_writer = record { W = Bytes; write = slow_write; sent = λ w. w }

slow_writer-IsWriter : IsWriter slow_writer
slow_writer-IsWriter = record {
  at_most = λ p w. ground arith;
  progress = λ p w h e. ground arith;
  sends = λ p w. refl;
}

abbrev sample_limits : PacketReadWriter
sample_limits = record { min_len = 2; max_len = 16; timeout = 5 }

abbrev sample_packet : Bytes
sample_packet = 7 ∷ 8 ∷ 9 ∷ 10 ∷ 11 ∷ []

abbrev sample_sender : Sender slow_writer
sample_sender = record { w = 1 ∷ []; write_deadline = 0 }

abbrev sample_sent : Sender slow_writer
sample_sent = record { w = 1 ∷ 0 ∷ 0 ∷ 0 ∷ 5 ∷ 7 ∷ 8 ∷ 9 ∷ 10 ∷ 11 ∷ []; write_deadline = 25 }

abbrev sample_peer : Reader
sample_peer = record { inbound = 0 ∷ 0 ∷ 0 ∷ 5 ∷ 7 ∷ 8 ∷ 9 ∷ 10 ∷ 11 ∷ 77 ∷ []; read_deadline = 0 }

write_packet_test :
    write_packet slow_writer sample_limits sample_packet 20 sample_sender
    ≡ some (ok tt, sample_sent)
unfolding write_packet send_frame write_or write write_loop put_uint32
write_packet_test = refl

read_packet-write_packet_example :
    read_packet sample_limits sample_peer 30
    ≡ (ok sample_packet, record { inbound = 77 ∷ []; read_deadline = 35 })
read_packet-write_packet_example =
    read_packet-write_packet slow_writer slow_writer-IsWriter sample_limits (omega arith)
      sample_packet 20 sample_sender sample_sent sample_peer (77 ∷ []) 30 write_packet_test refl

read_packet_test : (read_packet sample_limits sample_peer 30).0 ≡ ok sample_packet
unfolding read_packet read_checked read_full uint32 read_payload_of
read_packet_test = refl

read_packet_bounds_example : (2 ≤ length sample_packet) × (length sample_packet ≤ 16)
read_packet_bounds_example =
    read_packet_bounds sample_limits sample_peer 30 sample_packet read_packet_test

-- A cipher that puts a byte in front.
abbrev mark_encrypt : Bytes → Result ℕ Bytes
mark_encrypt p = ok (99 ∷ p)

abbrev mark_decrypt : Bytes → Result ℕ Bytes
mark_decrypt [] = err 1
mark_decrypt (x ∷ p) = ok p

abbrev mark_cryptor : Cryptor
mark_cryptor = record { encrypt = mark_encrypt; decrypt = mark_decrypt }

mark_cryptor-IsCryptor : IsCryptor mark_cryptor
mark_cryptor-IsCryptor = record { decrypt-encrypt = λ p q h. ground arith }

abbrev sample_encrypted : Sender slow_writer
sample_encrypted = record { w = 1 ∷ 0 ∷ 0 ∷ 0 ∷ 3 ∷ 99 ∷ 7 ∷ 8 ∷ []; write_deadline = 25 }

encrypt_and_write_packet_test :
    encrypt_and_write_packet slow_writer sample_limits mark_cryptor (7 ∷ 8 ∷ []) 20 sample_sender
    ≡ some (ok tt, sample_encrypted)
unfolding encrypt_and_write_packet write_packet send_frame write_or write write_loop put_uint32
encrypt_and_write_packet_test = refl

read_and_decrypt-encrypt_and_write_example :
    read_and_decrypt_packet sample_limits mark_cryptor
      (record { inbound = 0 ∷ 0 ∷ 0 ∷ 3 ∷ 99 ∷ 7 ∷ 8 ∷ []; read_deadline = 0 })
      30
    ≡ (ok (7 ∷ 8 ∷ []), record { inbound = []; read_deadline = 35 })
read_and_decrypt-encrypt_and_write_example =
    read_and_decrypt-encrypt_and_write slow_writer slow_writer-IsWriter sample_limits mark_cryptor
      (7 ∷ 8 ∷ []) 20 sample_sender sample_encrypted
      (record { inbound = 0 ∷ 0 ∷ 0 ∷ 3 ∷ 99 ∷ 7 ∷ 8 ∷ []; read_deadline = 0 }) [] 30
      mark_cryptor-IsCryptor (omega arith) encrypt_and_write_packet_test refl
