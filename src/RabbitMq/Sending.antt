-- ===== src/RabbitMq/Sending.antt =====
-- dao/rabbitMQ/queue.go: SendMessages, SendMessagesTx and SendMessagesEvery.
pub mod Confirms
pub mod Again
use go_lib.Base.{
  ℕ, zero, suc, ◌+◌, Bool, true, false, Option, none, some, List, [], ◌∷◌, ◌++◌, map, length,
  get_elem?, drop, String, if◌then◌else◌,
}
use go_lib.RabbitMq.{
  Publishing, QueueError, foreign, confirm_closed, confirm_timeout, undelivered, canceled,
}

-- What the select takes while confirmations are awaited: a confirmation with its delivery tag, the
-- close of their channel, the timer, or the end of the context.
pub data Wait : Type 0 where
  confirmed : Bool → ℕ → Wait
  closed timed_out cancelled : Wait

-- What the broker and its client answer in one attempt: errors by their text, `publish` for the n-th
-- message and `wait` in the n-th round.
pub record Channel : Type 0 where
  pub get_ch : Option String
  pub confirm : Option String
  pub publish : ℕ → Option String
  pub wait : ℕ → Wait
  pub tx : Option String
  pub tx_commit : Option String

abbrev pub persist : Publishing → Publishing
persist m = record m { persistent = true }

-- What SendMessages returns: the messages that failed, and an error; or a panic, at a delivery tag
-- that no message has.
pub data Outcome : Type 0 where
  returns : List Publishing → Option QueueError → Outcome
  panics : Outcome

abbrev pub message_at : ℕ → List Publishing → Option Publishing
message_at zero ms = none
message_at (suc i) ms = get_elem? ms i

-- The loop that publishes, from the n-th message on: its error, and the slice of the messages, which
-- it marks as persistent.
unfoldable pub publish_from :
    (ℕ → Option String) → ℕ → List Publishing → Option String × List Publishing
publish_from publish n [] = (none, [])
publish_from publish n (m ∷ ms) =
    let rest = publish_from publish (suc n) ms in
    elim (publish n) [ some e ↦ (some e, persist m ∷ ms) | none ↦ (rest.0, persist m ∷ rest.1) ]

abbrev pub finish : List Publishing → Outcome
finish [] = returns [] none
finish (m ∷ ms) = returns (m ∷ ms) (some undelivered)

-- The loop that waits for confirmations, for the given number of rounds.
unfoldable pub await : (ℕ → Wait) → List Publishing → ℕ → ℕ → List Publishing → Outcome
await wait ms zero i failed = finish failed
await wait ms (suc rounds) i failed = elim (wait i) [
  | confirmed true tag ↦ await wait ms rounds (suc i) failed
  | confirmed false tag ↦ elim (message_at tag ms) [
    | none ↦ panics
    | some m ↦ await wait ms rounds (suc i) (failed ++ m ∷ [])
  ]
  | closed ↦ returns (failed ++ drop i ms) (some confirm_closed)
  | timed_out ↦ returns (failed ++ drop i ms) (some confirm_timeout)
  | cancelled ↦ returns ms (some canceled)
]

abbrev pub confirm_all : Channel → Option String × List Publishing → Outcome
confirm_all ch (some e, ms) = returns ms (some (foreign e))
confirm_all ch (none, ms) = await ch.wait ms (length ms) 0 []

-- `SendMessages`
unfoldable pub send_messages : Channel → List Publishing → Outcome
unfolding publish_from await
send_messages ch ms = elim ch.get_ch [
  | some e ↦ returns ms (some (foreign e))
  | none ↦ elim ch.confirm [
    | some e ↦ returns ms (some (foreign e))
    | none ↦ confirm_all ch (publish_from ch.publish 0 ms)
  ]
]

-- `SendMessagesTx`: its error, and whether the transaction was committed. On an error after its
-- begin it is rolled back.
abbrev pub commit : Channel → Option String × List Publishing → Option QueueError × Bool
commit ch (some e, ms) = (some (foreign e), false)
commit ch (none, ms) = elim ch.tx_commit [
  | some e ↦ (some (foreign e), false)
  | none ↦ (none, true)
]

unfoldable pub send_messages_tx : Channel → List Publishing → Option QueueError × Bool
unfolding publish_from
send_messages_tx ch ms = elim ch.get_ch [
  | some e ↦ (some (foreign e), false)
  | none ↦ elim ch.tx [
    | some e ↦ (some (foreign e), false)
    | none ↦ commit ch (publish_from ch.publish 0 ms)
  ]
]

-- What SendMessagesEvery meets: the channel of each attempt, and whether its context is done before
-- it, or while it waits after it.
pub record World : Type 0 where
  pub channel : ℕ → Channel
  pub done_before : ℕ → Bool
  pub done_after : ℕ → Bool

-- How it ends; `starved` is the end of the fuel.
pub data Every : Type 0 where
  succeeded stopped crashed starved : Every

-- The messages that the next attempt sends.
abbrev pub next_pending : List Publishing → Outcome → List Publishing
next_pending messages (returns failed none) = failed
next_pending messages (returns failed (some e)) = messages
next_pending messages panics = messages

-- `SendMessagesEvery` in the mode of confirms, from the attempt `n` on, with the batches that it
-- hands to SendMessages. One unit of fuel is one attempt.
unfoldable pub send_every :
    ℕ → World → ℕ → List Publishing → List Publishing → Every × List (List Publishing)
unfolding send_messages
send_every zero w n messages pending = (starved, [])
send_every (suc fuel) w n messages pending =
    let o = send_messages (w.channel n) pending in
    let again = send_every fuel w (suc n) messages (next_pending messages o) in
    elim (w.done_before n) [
      | true ↦ (stopped, [])
      | false ↦ elim o [
        | panics ↦ (crashed, pending ∷ [])
        | returns [] none ↦ (succeeded, pending ∷ [])
        | returns failed e ↦ elim (w.done_after n) [
          | true ↦ (stopped, pending ∷ [])
          | false ↦ (again.0, pending ∷ again.1)
        ]
      ]
    ]

-- The mode of transactions, with the number of commits.
unfoldable pub send_every_tx : ℕ → World → ℕ → List Publishing → Every × ℕ
unfolding send_messages_tx
send_every_tx zero w n ms = (starved, 0)
send_every_tx (suc fuel) w n ms =
    let again = send_every_tx fuel w (suc n) ms in
    let (e, committed) = send_messages_tx (w.channel n) ms in
    let count = if committed then 1 else 0 in
    elim (w.done_before n) [
      | true ↦ (stopped, 0)
      | false ↦ elim e [
        | none ↦ (succeeded, count)
        | some x ↦ elim (w.done_after n) [
          | true ↦ (stopped, count)
          | false ↦ (again.0, count + again.1)
        ]
      ]
    ]
