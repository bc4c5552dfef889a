-- ===== src/Mongo/Consumers.antt =====
-- The consumers of finished operations (internal/infra/mongobd/mongobd.go).
--
-- The backend itself is a library's. Consumers run at the same time: what they do is a step relation, in
-- which a callback begins at one step and ends at another, and others begin and end between. An operation
-- is known by a number; whether a callback returns or panics, which the consumer recovers from, is the same.
use ggs.Prelude.{
  ℕ, suc, ◌+◌, ◌≤◌, ◌≡◌, Bool, true, List, [], ◌∷◌, ◌++◌, ltb, ◌-◌, ◌<◌, length, if◌then◌else◌,
  Result, ok, err,
}

-- The part of `Config` that `check` looks at; the numbers are ints that may be negative, here 0.
pub record Config : Type 0 where
  pub has_client : Bool
  pub has_logger : Bool
  pub op_chan_size : ℕ
  pub op_consumers : ℕ

pub data ConfigError : Type 0 where
  client_is_nil logger_is_nil : ConfigError

-- `check`, on a machine with `num_cpu` processors
unfoldable pub check : ℕ → Config → Result ConfigError Config
check num_cpu c =
    if c.has_client
    then (if c.has_logger
        then ok (record c {
          op_chan_size = if ltb 0 c.op_chan_size then c.op_chan_size else 10000;
          op_consumers = if ltb 0 c.op_consumers then c.op_consumers else num_cpu;
        })
        else err logger_is_nil)
    else err client_is_nil

-- The operations that are done and wait in the channel, those that a consumer has taken and not finished,
-- all that were taken, in the order in which they were, and how many consumers have not ended.
pub record Bd : Type 0 where
  pub done : List ℕ
  pub running : List ℕ
  pub taken : List ℕ
  pub consumers : ℕ
  pub closed : Bool

-- What the consumers do, each with one operation at a time.
pub data Step : Bd → Bd → Type 0 where
  -- `range bd.done`: a consumer that has nothing to do takes the first that waits, for `consumeOp`.
  takes :
      {b : Bd} (op : ℕ) (ops : List ℕ)
      → b.done ≡ op ∷ ops
      → length b.running < b.consumers
      → Step b (record b { done = ops; running = op ∷ b.running; taken = b.taken ++ (op ∷ []) })
  -- `consumeOp` ends, for any of those that run.
  finishes :
      {b : Bd} (op : ℕ) (before after : List ℕ)
      → b.running ≡ before ++ (op ∷ after)
      → Step b (record b { running = before ++ after })
  -- A consumer that has nothing to do ends, when the channel is closed and empty.
  ends :
      {b : Bd}
      → b.closed ≡ true
      → b.done ≡ []
      → length b.running < b.consumers
      → Step b (record b { consumers = b.consumers - 1 })

-- A run of so many steps.
pub data Steps : ℕ → Bd → Bd → Type 0 where
  none_yet : {b : Bd} → Steps 0 b b
  then_step : {n : ℕ} {a b c : Bd} → Step a b → Steps n b c → Steps (suc n) a c

-- `Stop` when the backend has stopped, with `late` done until then: the channel is closed.
unfoldable pub stop : List ℕ → Bd → Bd
stop late b = record b { done = b.done ++ late; closed = true }

-- How many steps are left at most.
abbrev pub left : Bd → ℕ
left b = length b.done + length b.done + length b.running + b.consumers

-- The consumers are enough for what they run, and there is one while an operation waits.
abbrev pub IsManned : Bd → Type 0
IsManned b = (length b.running ≤ b.consumers) × (0 < length b.done → 0 < b.consumers)
