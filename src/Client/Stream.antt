-- ===== src/Client/Stream.antt =====
-- The stream of a client (app/client/internal/net/stream.go).
--
-- The codec is a library's: what it reads of a packet's head, and how it encodes and decodes, are
-- parameters. The handler is told of a message or of the end: what it was told is a list. The clock
-- is what it shows when a number of rounds is left.
pub mod Delivers
mod Samples
use ggs.Prelude.{
  ℕ, zero, suc, ◌+◌, ◌^◌, ◌<◌, ◌≡◌, refl, sym, ap, ◌∙◌, Bool, true, false, Option, none, some, List,
  [], ◌∷◌, ◌++◌, append_assoc, arith, if◌then◌else◌, length, Result, ok, err,
}
use ggs.Net.Write.{Bytes, Writer}
use ggs.Net.Frame.{
  Reader, NetError, read_length, eof, frame, Sender, read_full, read_after_length,
  read_packet-frame,
}
use ggs.Net.Frame
use ggs.Net.Packet.{PacketReadWriter, out_of_range, read_checked}
use ggs.Net.Packet
use ggs.Net.Crypt.{
  Cryptor, IsCryptor, read_and_decrypt_packet, encrypt_and_write_packet, read_and_decrypt-frame,
  decrypt_read, decrypted,
}
use ggs.Net.Exchange.{Aes, create_aes_crypto}

pub record Msg (M : Type 0) : Type 0 where
  pub pt : ℕ
  pub seq : ℕ
  pub msg : M

pub data StreamError : Type 0 where
  conn_closed : StreamError
  read_failed : NetError → StreamError
  decode_failed : ℕ → ℕ → StreamError

-- The stream, its side of the connection that is read, and what the handler was told.
pub record Stream (M : Type 0) : Type 0 where
  pub cryptor : Option Cryptor
  pub reader : Reader
  pub closed : Bool
  pub conn_closes : ℕ
  pub on_msg : List (Msg M)
  pub on_close : List StreamError

-- `NewStream`, with `none` for the panic on a short key; `capacity` is the key's room.
abbrev pub new_stream :
    {M : Type 0} → Aes → ℕ → Reader → Option Bytes → Option (Result ℕ (Stream M))
new_stream aes capacity peer none = some (
    ok (record {
      cryptor = none;
      reader = peer;
      closed = false;
      conn_closes = 0;
      on_msg = [];
      on_close = [];
    }))
new_stream aes capacity peer (some key) = elim (create_aes_crypto aes capacity key) [
  | none ↦ none
  | some (err e) ↦ some (err e)
  | some (ok k) ↦ some (
      ok (record {
        cryptor = some k;
        reader = peer;
        closed = false;
        conn_closes = 0;
        on_msg = [];
        on_close = [];
      }))
]

module _ {M : Type 0} where
  -- `close`, with its error, and `Close` without
  unfoldable pub close : Option StreamError → Stream M → Stream M
  close e s = if s.closed then s else record s {
    closed = true;
    conn_closes = s.conn_closes + 1;
    on_close = elim e [ none ↦ s.on_close | some x ↦ s.on_close ++ (x ∷ []) ];
  }

pub data SendError : Type 0 where
  encode_failed : ℕ → SendError
  send_failed : NetError → SendError

abbrev pub sent_as :
    {S : Type 0}
    → Option (Result NetError (Unit {0}) × S)
    → Option (Result SendError (Unit {0}) × S)
sent_as none = none
sent_as (some (ok u, s)) = some (ok u, s)
sent_as (some (err e, s)) = some (err (send_failed e), s)

module _ (prw : PacketReadWriter) (timeout : ℕ) where
  -- `readPacket`
  abbrev pub read_packet : Option Cryptor → Reader → ℕ → Result NetError Bytes × Reader
  read_packet none peer now = Frame.read_packet peer now timeout
  read_packet (some k) peer now = read_and_decrypt_packet prw k peer now

  module _ (c : Writer) where
    -- `Send`
    abbrev pub send :
        Option Cryptor → Bytes → ℕ → Sender c → Option (Result NetError (Unit {0}) × Sender c)
    send none p now s = Frame.write_packet c p now timeout s
    send (some k) p now s = encrypt_and_write_packet c prw k p now s

    -- `SendReq`: what cannot be encoded is not sent.
    abbrev pub send_req :
        {M : Type 0}
        → (ℕ → M → Result ℕ Bytes)
        → Option Cryptor
        → ℕ
        → M
        → ℕ
        → Sender c
        → Option (Result SendError (Unit {0}) × Sender c)
    send_req encode k seq m now s = elim (encode seq m) [
      | err e ↦ some (err (encode_failed e), s)
      | ok p ↦ sent_as (send k p now s)
    ]

module _ {M : Type 0} (prw : PacketReadWriter) (timeout : ℕ) (head_pt head_seq : Bytes → ℕ)
    (decode : Bytes → Result ℕ M) where
  abbrev pub msg_of : Bytes → M → Msg M
  msg_of p m = record { pt = head_pt p; seq = head_seq p; msg = m }

  abbrev pub after_decode : Bytes → Result ℕ M → Stream M → Bool × Stream M
  after_decode p (err e) s = (false, close (some (decode_failed (head_pt p) (head_seq p))) s)
  after_decode p (ok m) s = (true, record s { on_msg = s.on_msg ++ (msg_of p m ∷ []) })

  abbrev pub after_read : Result NetError Bytes × Reader → Stream M → Bool × Stream M
  after_read (err e, r) s = (false, close (some (read_failed e)) (record s { reader = r }))
  after_read (ok p, r) s = after_decode p (decode p) (record s { reader = r })

  -- A round of `readLoop`, and whether the loop goes on. A closed connection is not read.
  unfoldable pub read_round : ℕ → Stream M → Bool × Stream M
  read_round now s =
      if s.closed
      then (false, close (some conn_closed) s)
      else after_read (read_packet prw timeout s.cryptor s.reader now) s

  -- `readLoop`, with the rounds that are left
  unfoldable pub read_loop : (ℕ → ℕ) → ℕ → Stream M → Bool × Stream M
  read_loop clock zero s = (true, s)
  read_loop clock (suc n) s =
      let (go_on, s') = read_round (clock n) s in
      let rest = read_loop clock n s' in if go_on then rest else (false, s')
