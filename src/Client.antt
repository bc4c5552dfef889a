-- ===== src/Client.antt =====
-- The client's table of one request (app/client/internal/mode/client/client.go).
--
-- A request and the goroutine that reads responses run side by side: what arrives while `sendReq`
-- runs is an argument, split by the moment at which `sendReq` stores its number.
pub mod Response
pub mod Stream
pub mod Command
pub mod States
mod Samples
use ggs.Prelude.{
  ℕ, ◌+◌, ◌%◌, ◌^◌, Bool, true, false, List, [], ◌∷◌, ◌++◌, ◌==◌, ltb, length, if◌then◌else◌,
  Result, ok, err,
}

abbrev pub Message : Type 0
Message = List ℕ

pub data RequestError : Type 0 where
  not_connected send_failed timed_out : RequestError

-- The channel of one response is the list of those in it, with the one that the reader may be
-- blocked on behind.
pub record Client : Type 0 where
  pub connected : Bool
  pub seq_incr : ℕ  -- uint32
  pub req_seq : ℕ  -- uint32
  pub responses : List Message

-- `genSeq`
abbrev pub gen_seq : Client → ℕ
gen_seq c = (c.seq_incr + 1) % 2 ^ 32

-- The non-blocking receive that empties the channel.
abbrev pub without_first : List Message → Client → Client
without_first [] c = c
without_first (m ∷ ms) c = record c { responses = ms }

unfoldable pub clear_responses : Client → Client
clear_responses c = without_first c.responses c

-- `OnStreamMsg` of a response. While the reader is blocked it takes nothing from the stream.
unfoldable pub on_stream_msg : ℕ → Message → Client → Client
on_stream_msg seq m c =
    if ltb 1 (length c.responses)
    then c
    else (if c.req_seq == seq
        then record c { req_seq = 0; responses = c.responses ++ (m ∷ []) }
        else c)

unfoldable pub on_stream_msgs : List (ℕ × Message) → Client → Client
on_stream_msgs [] c = c
on_stream_msgs ((seq, m) ∷ rest) c = on_stream_msgs rest (on_stream_msg seq m c)

-- The number is made, and stored for the reader.
unfoldable pub store_seq : Client → Client
store_seq c = record c { seq_incr = gen_seq c; req_seq = gen_seq c }

-- A request that could not be sent is forgotten, if no response to it came.
unfoldable pub forget_seq : ℕ → Client → Client
forget_seq seq c = if c.req_seq == seq then record c { req_seq = 0 } else c

-- The wait for a response: what the channel has, or the timeout.
unfoldable pub await_response : Client → Result RequestError Message × Client
await_response c = elim c.responses [
  | [] ↦ (err timed_out, c)
  | m ∷ ms ↦ (ok m, record c { responses = ms })
]

-- `sendReq`: `early` arrives before the number is stored, `late` before the wait is over.
unfoldable pub send_req :
    List (ℕ × Message) → List (ℕ × Message) → Bool → Client → Result RequestError Message × Client
send_req early late sent c =
    let c' = store_seq (on_stream_msgs early (clear_responses c)) in
    if c.connected
    then (if sent
        then await_response (on_stream_msgs late c')
        else (err send_failed, forget_seq c'.req_seq c'))
    else (err not_connected, c)
