-- ===== src/RabbitMq.antt =====
-- dao/rabbitMQ: messages, their queue, and the time between two tries. What the broker and its
-- client answer are parameters.
pub mod Backoff
pub mod Sending
pub mod Delivery
mod Examples
use go_lib.Base.{
  ℕ, String, Bool, true, false, Option, none, some, List, [], ◌∷◌, ℤ, pos, negsuc, Map, put, get,
  if◌then◌else◌, ltb, comparable_string, ◌==◌,
}

-- The value of a header: an integer, or something else, of which only `utils.AnyToInt` matters.
pub data Value : Type 0 where
  int : ℤ → Value
  other : ℤ → Value

abbrev pub any_to_int : Value → ℤ
any_to_int (int n) = n
any_to_int (other n) = n

-- The properties that a retry copies from a delivery, but its headers and its body.
pub record Properties : Type 0 where
  pub content_type : String
  pub content_encoding : String
  pub correlation_id : String
  pub message_id : String
  pub kind : String
  pub app_id : String
  pub user_id : String
  pub reply_to : String
  pub expiration : String
  pub timestamp : ℕ
  pub priority : ℕ

-- `amqp091.Publishing`; nil headers are none.
pub record Publishing : Type 0 where
  pub persistent : Bool
  pub headers : Option (Map String Value)
  pub properties : Properties
  pub body : String

-- Durations are in milliseconds.
pub record QueueConfig : Type 0 where
  pub exchange_name : String
  pub exchange_type : String
  pub route_key : String
  pub queue_name : String
  pub queue_type : String
  pub prefetch : ℤ
  pub max_delay : ℤ

-- The errors of this package, and those of the client, by their text.
pub data QueueError : Type 0 where
  foreign : String → QueueError
  confirm_closed confirm_timeout undelivered deliveries_closed canceled : QueueError

-- What NewQueue asks the broker for.
pub data Declaration : Type 0 where
  exchange : String → String → Map String String → Declaration
  queue : String → Map String String → Declaration
  binding : String → String → String → Declaration

abbrev pub or_default : String → String → String
or_default value default = if value == "" then default else value

unfoldable pub with_defaults : QueueConfig → QueueConfig
with_defaults c = record c {
  exchange_type = or_default c.exchange_type "direct";
  queue_type = or_default c.queue_type "quorum";
}

abbrev pub is_delayed : QueueConfig → Bool
is_delayed c = ltb 0 (elim c.max_delay [ pos n ↦ n | negsuc n ↦ 0 ])

abbrev pub declarations_of : QueueConfig → List Declaration
declarations_of c =
    (if is_delayed c
      then exchange c.exchange_name "x-delayed-message" (("x-delayed-type", c.exchange_type) ∷ [])
      else exchange c.exchange_name c.exchange_type [])
    ∷ queue c.queue_name (("x-queue-type", c.queue_type) ∷ [])
    ∷ binding c.queue_name c.route_key c.exchange_name
    ∷ []

-- The declarations are made in order, up to the first that the broker refuses.
abbrev pub declare : (Declaration → Option String) → List Declaration → Option QueueError
declare answer [] = none
declare answer (d ∷ ds) = elim (answer d) [ some e ↦ some (foreign e) | none ↦ declare answer ds ]

-- `NewQueue` on a channel that the connection gave: an error, or the configuration of the queue.
unfoldable pub new_queue :
    (Declaration → Option String) → QueueConfig → Option QueueError × QueueConfig
unfolding with_defaults
new_queue answer config = let c = with_defaults config in (declare answer (declarations_of c), c)
