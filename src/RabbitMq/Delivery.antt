-- ===== src/RabbitMq/Delivery.antt =====
-- dao/rabbitMQ/queue.go: a delivery, how its consumer settles it, and ConsumeMessages.
pub mod Settled
use go_lib.Base.{
  ℕ, zero, suc, ◌+◌, String, Bool, true, false, not, ◌&&◌, ◌||◌, Option, none, some, List, [], ◌∷◌,
  ◌++◌, ℤ, pos, negsuc, Map, get, put, int_beq, ltb_ℤ, if◌then◌else◌, comparable_string, is_some,
  sub_ℕ, pos_part, neg_part,
}
use go_lib.RabbitMq.{
  Value, int, any_to_int, Properties, Publishing, QueueError, foreign, deliveries_closed, canceled,
}
use go_lib.RabbitMq.Sending.{Channel, Outcome, returns, panics, send_messages}

-- What the broker is asked for: to acknowledge the delivery, to put it back into the queue, or to
-- take a copy, which it confirmed or not; or to reject it, with whether it is put back.
pub data Op : Type 0 where
  acks nacks : Op
  rejects : Bool → Op
  resends tries : Publishing → Op

-- `Delivery`, with the maximal delay of its queue and what the broker was asked for. `crashed` is a
-- panic in SendMessages.
pub record Delivery : Type 0 where
  pub max_delay : ℤ
  pub headers : Option (Map String Value)
  pub properties : Properties
  pub body : String
  pub acked : Bool
  pub nacked : Bool
  pub err : Option QueueError
  pub ops : List Op
  pub crashed : Bool

-- `NewDelivery`
unfoldable pub new_delivery : ℤ → Option (Map String Value) → Properties → String → Delivery
new_delivery max_delay headers properties body = record {
  max_delay = max_delay;
  headers = headers;
  properties = properties;
  body = body;
  acked = false;
  nacked = false;
  err = none;
  ops = [];
  crashed = false;
}

abbrev pub or_keep : Option String → Option QueueError → Option QueueError
or_keep none old = old
or_keep (some e) old = some (foreign e)

-- `Ack` and `Nack`; the argument is the client's error.
unfoldable pub ack : Option String → Delivery → Delivery
ack e d =
    if d.acked || d.nacked
    then d
    else record d { err = or_keep e d.err; acked = true; ops = d.ops ++ acks ∷ [] }

unfoldable pub nack : Option String → Delivery → Delivery
nack e d =
    if d.acked || d.nacked
    then d
    else record d { err = or_keep e d.err; nacked = true; ops = d.ops ++ nacks ∷ [] }

abbrev pub entries : Option (Map String Value) → Map String Value
entries none = []
entries (some m) = m

abbrev pub count_or_zero : Option Value → ℤ
count_or_zero none = pos 0
count_or_zero (some v) = any_to_int v

unfoldable pub get_retry_num : Delivery → ℤ
get_retry_num d = count_or_zero (get "x-retry-count" (entries d.headers))

abbrev pub next : ℤ → ℤ
next n = sub_ℕ (suc (pos_part n)) (neg_part n)

unfoldable pub clamp_delay : ℤ → ℤ → ℤ
clamp_delay max delay = if ltb_ℤ delay (pos 0) || ltb_ℤ max delay then max else delay

abbrev pub retry_headers : ℤ → Delivery → Map String Value
retry_headers delay d =
    put "x-retry-count" (int (next (get_retry_num d)))
      (put "x-delay" (int delay) (entries d.headers))

unfoldable pub copy_of : ℤ → Delivery → Publishing
unfolding get_retry_num
copy_of delay d = record {
  persistent = true;
  headers = some (retry_headers delay d);
  properties = d.properties;
  body = d.body;
}

-- The headers are the map of the delivery itself, if it has one.
abbrev pub write_headers : ℤ → Delivery → Delivery
write_headers delay d = elim d.headers [
  | none ↦ d
  | some m ↦ record d { headers = some (retry_headers delay d) }
]

abbrev pub after_send : Option String → Publishing → Outcome → Delivery → Delivery
after_send e c (returns failed none) d = ack e (record d { ops = d.ops ++ resends c ∷ [] })
after_send e c (returns failed (some x)) d = record d { err = some x; ops = d.ops ++ tries c ∷ [] }
after_send e c panics d = record d { crashed = true; ops = d.ops ++ tries c ∷ [] }

-- `RetryLater`; `e` is the client's error at the acknowledgement or at its opposite.
unfoldable pub retry_later : ℤ → Channel → Option String → Delivery → Delivery
unfolding ack nack clamp_delay copy_of
retry_later delay ch e d =
    if int_beq d.max_delay (pos 0)
    then nack e d
    else if d.acked || d.nacked
    then d
    else (let cut = clamp_delay d.max_delay delay in
        let c = copy_of cut d in after_send e c (send_messages ch (c ∷ [])) (write_headers cut d))

-- What a handler may call on its delivery: its own methods, and those of the embedded
-- `amqp091.Delivery`, which are called directly and set neither flag nor error. Of these, `Reject`
-- is promoted, and `Ack` and `Nack` are named by `d.Delivery`.
pub data Call : Type 0 where
  calls_ack calls_nack : Option String → Call
  calls_retry : ℤ → Channel → Option String → Call
  calls_embedded_ack calls_embedded_nack : Call
  calls_reject : Bool → Call

abbrev pub ask : Op → Delivery → Delivery
ask o d = record d { ops = d.ops ++ o ∷ [] }

unfoldable pub call : Call → Delivery → Delivery
unfolding retry_later
call (calls_ack e) d = ack e d
call (calls_nack e) d = nack e d
call (calls_retry delay ch e) d = retry_later delay ch e d
call calls_embedded_ack d = ask acks d
call calls_embedded_nack d = ask nacks d
call (calls_reject requeue) d = ask (rejects requeue) d

unfoldable pub call_all : List Call → Delivery → Delivery
unfolding call
call_all [] d = d
call_all (c ∷ cs) d = call_all cs (call c d)

-- A delivery's way through its handler: what the handler calls, whether it returns an error or
-- panics, and what the broker answers afterwards.
pub record Handling : Type 0 where
  pub delivery : Delivery
  pub calls : List Call
  pub fails : Bool
  pub channel : Channel
  pub settle_error : Option String

unfoldable pub consume_one : Handling → Delivery
unfolding call_all
consume_one h =
    let d = call_all h.calls h.delivery in
    if h.fails then retry_later d.max_delay h.channel h.settle_error d else ack h.settle_error d

-- The loop of ConsumeMessages over what comes in before the channel is closed or the context ends:
-- the deliveries that it handled, and its error.
unfoldable pub consume : List Handling → QueueError → List Delivery × Option QueueError
unfolding consume_one
consume [] end = ([], some end)
consume (h ∷ hs) end =
    let d = consume_one h in
    let rest = consume hs end in
    if d.crashed || is_some d.err then (d ∷ [], d.err) else (d ∷ rest.0, rest.1)
