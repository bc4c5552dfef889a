-- ===== src/Net/Exchange.antt =====
-- The exchange of the session key (app/agent/internal/app/listen.go, exchangeSecretKey of
-- app/client/internal/mode/client/client.go, internal/base/crypto/aes.go).
--
-- The library of ciphers and the random bytes are parameters. An agent that panics ends the process.
pub mod Agree
mod Samples
use ggs.Prelude.{
  ℕ, ◌+◌, ◌^◌, ◌<◌, ◌≡◌, refl, sym, ap, ◌∙◌, Bool, true, false, Option, none, some, ◌++◌, inl, inr,
  arith, ltb, if◌then◌else◌, length, drop, drop-append_length, Result, ok, err, Option-cases,
  Result-cases,
}
use ggs.Net.Write.{Bytes, Writer, IsWriter}
use ggs.Net.Frame.{Reader, NetError, read_packet-frame, frame, Sender, send_frame, send_frame_cases}
use ggs.Net.Frame
use ggs.Net.Packet.{PacketReadWriter, out_of_range, read_packet-frame as in_limits}
use ggs.Net.Packet
use ggs.Net.Crypt.{
  Cryptor, IsCryptor, encrypt_and_write_packet, read_and_decrypt_packet, read_and_decrypt-frame,
  sent-encrypt_and_write,
}

-- `NewAESGCMCryptor` of a key.
abbrev pub Aes : Type 0
Aes = Bytes → Result ℕ Cryptor

pub data ExchangeError : Type 0 where
  read_tmp_secret write_session_key write_tmp_key read_session_key : NetError → ExchangeError
  decrypt_tmp_secret create_encryptor encrypt_session_key create_decryptor : ℕ → ExchangeError
  generate_session_key : ExchangeError

pub data Outcome : Type 0 where
  session : Bytes → Outcome
  failed : ExchangeError → Outcome
  panicked : Outcome

-- `CreateAESCrypto`: the slice of twelve bytes panics on a key with less room; `none` is the panic.
abbrev pub create_aes_crypto : Aes → ℕ → Bytes → Option (Result ℕ Cryptor)
create_aes_crypto aes capacity key = if ltb capacity 12 then none else some (aes key)

module _ (aes : Aes) (timeout : ℕ) (c : Writer) where
  abbrev pub wrote :
      Bytes → Option (Result NetError (Unit {0}) × Sender c) → Option (Outcome × Sender c)
  wrote key none = none
  wrote key (some (ok _, s)) = some (session key, s)
  wrote key (some (err e, s)) = some (failed (write_session_key e), s)

  abbrev pub send_session : Bytes → ℕ → Sender c → Result ℕ Bytes → Option (Outcome × Sender c)
  send_session key now s (err e) = some (failed (encrypt_session_key e), s)
  send_session key now s (ok sealed) = wrote key (Frame.write_packet c sealed now timeout s)

  abbrev pub seal_session :
      Bytes → ℕ → Sender c → Option (Result ℕ Cryptor) → Option (Outcome × Sender c)
  seal_session key now s none = some (panicked, s)
  seal_session key now s (some (err e)) = some (failed (create_encryptor e), s)
  seal_session key now s (some (ok k)) = send_session key now s (k.encrypt key)

  -- From the temporary secret on; `none` is an error of the random source.
  abbrev pub reply : Option Bytes → ℕ → ℕ → Sender c → Result ℕ Bytes → Option (Outcome × Sender c)
  reply random capacity now s (err e) = some (failed (decrypt_tmp_secret e), s)
  reply none capacity now s (ok tmp) = some (failed generate_session_key, s)
  reply (some key) capacity now s (ok tmp) =
      seal_session key now s (create_aes_crypto aes capacity tmp)

  abbrev pub after_secret :
      Cryptor
      → Option Bytes
      → ℕ
      → ℕ
      → Sender c
      → Result NetError Bytes
      → Option (Outcome × Sender c)
  after_secret secret random capacity now s (err e) = some (failed (read_tmp_secret e), s)
  after_secret secret random capacity now s (ok p) = reply random capacity now s (secret.decrypt p)

  -- `exchangeSecretKey` of the agent. `capacity` is the room that the decrypted secret has.
  unfoldable pub agent_exchange :
      Cryptor → Option Bytes → ℕ → ℕ → Reader → Sender c → Option (Outcome × Sender c)
  agent_exchange secret random capacity now peer s =
      after_secret secret random capacity now s (Frame.read_packet peer now timeout).0

-- `handleConn`: an agent runs for the connection, or it is closed, or the process ends.
pub data Handled : Type 0 where
  started : Cryptor → Handled
  closed process_ends : Handled

abbrev pub start_agent : Option (Result ℕ Cryptor) → Handled
start_agent none = process_ends
start_agent (some (err _)) = closed
start_agent (some (ok k)) = started k

abbrev pub handle_conn : Aes → Outcome → Handled
handle_conn aes (session key) = start_agent (create_aes_crypto aes (length key) key)
handle_conn aes (failed _) = closed
handle_conn aes panicked = process_ends

module _ (aes : Aes) (prw : PacketReadWriter) where
  abbrev pub opened : Result NetError Bytes → Outcome
  opened (ok key) = session key
  opened (err e) = failed (read_session_key e)

  -- The second half of the client's `exchangeSecretKey`.
  abbrev pub finish : Reader → ℕ → Option (Result ℕ Cryptor) → Outcome
  finish peer now none = panicked
  finish peer now (some (err e)) = failed (create_decryptor e)
  finish peer now (some (ok k)) = opened (read_and_decrypt_packet prw k peer now).0

  abbrev pub client_finish : Bytes → Reader → ℕ → Outcome
  client_finish tmp peer now = finish peer now (create_aes_crypto aes (length tmp) tmp)

  module _ (c : Writer) where
    abbrev pub after_hello :
        Bytes
        → Reader
        → ℕ
        → Option (Result NetError (Unit {0}) × Sender c)
        → Option (Outcome × Sender c)
    after_hello tmp peer now none = none
    after_hello tmp peer now (some (err e, s)) = some (failed (write_tmp_key e), s)
    after_hello tmp peer now (some (ok _, s)) = some (client_finish tmp peer now, s)

    abbrev pub client_hello :
        Bytes → Reader → ℕ → Sender c → Result ℕ Cryptor → Option (Outcome × Sender c)
    client_hello tmp peer now s (err e) = some (failed (create_encryptor e), s)
    client_hello tmp peer now s (ok public) =
        after_hello tmp peer now (encrypt_and_write_packet c prw public tmp now s)

    -- `exchangeSecretKey` of the client; `peer` is what the agent answers.
    unfoldable pub client_exchange :
        Result ℕ Cryptor → Bytes → Reader → ℕ → Sender c → Option (Outcome × Sender c)
    client_exchange public tmp peer now s = client_hello tmp peer now s public

-- What the client's library and the agent's key make of each other.
pub record IsKeyPair (public secret : Cryptor) : Type 0 where
  pub decrypt-encrypt : (p q : Bytes) → public.encrypt p ≡ ok q → secret.decrypt q ≡ ok p
