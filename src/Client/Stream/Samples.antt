-- ===== src/Client/Stream/Samples.antt =====
-- Two encrypted messages that a stream reads, and the theorem at work on them.
use ggs.Prelude.{ℕ, ◌+◌, refl, false, some, List, [], ◌∷◌, arith, Result, ok, err}
use ggs.Net.Write.{Bytes}
use ggs.Net.Packet.{PacketReadWriter}
use ggs.Net.Crypt.{Cryptor, IsCryptor}
use ggs.Client.Stream.{Stream, read_loop}
use ggs.Client.Stream.Delivers.{Sent, frames, messages, IsDelivered, read_loop-delivers}

abbrev sample_limits : PacketReadWriter
sample_limits = record { min_len = 1; max_len = 100; timeout = 5 }

abbrev front_cryptor : Cryptor
front_cryptor = record {
  encrypt = λ p. ok (7 ∷ p);
  decrypt = λ q. elim q [ [] ↦ err 1 | x ∷ p ↦ ok p ];
}

front_cryptor-IsCryptor : IsCryptor front_cryptor
front_cryptor-IsCryptor = record { decrypt-encrypt = λ p q h. ground arith }

abbrev first : Bytes → ℕ
first [] = 0
first (x ∷ p) = x

abbrev sample_decode : Bytes → Result ℕ ℕ
sample_decode p = ok (first p)

abbrev sample_sent : List (Sent ℕ)
sample_sent =
    record { packet = 3 ∷ 4 ∷ []; sealed = 7 ∷ 3 ∷ 4 ∷ []; message = 3 }
    ∷ record { packet = 5 ∷ []; sealed = 7 ∷ 5 ∷ []; message = 5 }
    ∷ []

abbrev sample_stream : Stream ℕ
sample_stream = record {
  cryptor = some front_cryptor;
  reader = record {
    inbound = frames sample_limits 9 first first sample_decode sample_sent;
    read_deadline = 0;
  };
  closed = false;
  conn_closes = 0;
  on_msg = [];
  on_close = [];
}

read_loop-delivers_example :
    IsDelivered sample_limits 9 first first sample_decode sample_stream
      (messages sample_limits 9 first first sample_decode sample_sent)
      (read_loop sample_limits 9 first first sample_decode (λ n. 20 + n) 3 sample_stream)
read_loop-delivers_example =
    read_loop-delivers sample_limits 9 first first sample_decode sample_sent sample_stream
      (λ n. 20 + n) 3 (omega arith) refl
      (
        ((front_cryptor-IsCryptor, refl, refl), omega arith, refl),
        (((front_cryptor-IsCryptor, refl, refl), omega arith, refl), tt),
      )
      refl
