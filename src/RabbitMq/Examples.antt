-- ===== src/RabbitMq/Examples.antt =====
-- A queue and a broker at which the theorems on RabbitMQ are applied.
use go_lib.Base.{
  zero, suc, ◌*◌, ◌≤◌, ◌<◌, ◌≡◌, ◌↔◌, refl, true, false, Option, none, List, [], ◌∷◌, map, length,
  pos, All, comparable_string, not, nat_beq,
}
use go_lib.RabbitMq.{Properties, Publishing, QueueError, deliveries_closed}
use go_lib.RabbitMq.Backoff.{backoff, capped, second, backoff_wraps}
use go_lib.RabbitMq.Sending.{Channel, confirmed, persist, returns, send_messages, World, send_every}
use go_lib.RabbitMq.Sending.Confirms.{unconfirmed, Acked, send_messages-Confirmed}
use go_lib.RabbitMq.Sending.Again.{LastSucceeds, send_every-whole}
use go_lib.RabbitMq.Delivery.{
  Delivery, new_delivery, Handling, calls_ack, calls_retry, consume, calls_reject, rejects, acks,
}
use go_lib.RabbitMq.Delivery.Settled.{IsSettled, IsKept, consume-IsSettled}

backoff_wraps_example :
    (60 < 34 → backoff 60 ≡ pos (capped 60 * second)) × (55 ≤ 60 → backoff 60 ≡ pos 0)
backoff_wraps_example = backoff_wraps 60

abbrev plain : Properties
plain = record {
  content_type = "text/plain";
  content_encoding = "";
  correlation_id = "";
  message_id = "7";
  kind = "";
  app_id = "";
  user_id = "";
  reply_to = "";
  expiration = "";
  timestamp = 0;
  priority = 0;
}

abbrev two : List Publishing
two =
    record { persistent = false; headers = none; properties = plain; body = "a" }
    ∷ record { persistent = false; headers = none; properties = plain; body = "b" }
    ∷ []

-- The broker refuses the second message.
abbrev refusing : Channel
refusing = record {
  get_ch = none;
  confirm = none;
  publish = λ i. none;
  wait = λ i. confirmed (not (nat_beq i 1)) (suc i);
  tx = none;
  tx_commit = none;
}

abbrev willing : Channel
willing = record refusing { wait = λ i. confirmed true (suc i) }

send_messages-Confirmed_example :
    (e : Option QueueError) × (send_messages refusing two
      ≡ returns (unconfirmed refusing.wait 0 (map persist two)) e)
    × ((e ≡ none) ↔ Acked refusing.wait 0 (length two))
send_messages-Confirmed_example =
    send_messages-Confirmed refusing two refl refl (λ i. refl) (λ i a t h. cc) (λ i h. cc)

-- The second attempt finds the broker willing.
abbrev world : World
world = record {
  channel = λ n. elim n [ zero ↦ refusing | _ ↦ willing ];
  done_before = λ n. false;
  done_after = λ n. false;
}

send_every-whole_example :
    All (λ b. b ≡ two) (send_every 4 world 0 two two).1
    × LastSucceeds world 0 (send_every 4 world 0 two two)
send_every-whole_example = send_every-whole world two 4

-- The first message is confirmed and sent again nonetheless.
sent_twice : (send_every 4 world 0 two two).1 ≡ two ∷ two ∷ []
unfolding send_every
sent_twice = refl

abbrev fresh : Delivery
fresh = new_delivery (pos 5000) none plain "a"

abbrev handlings : List Handling
handlings =
    record { delivery = fresh; calls = []; fails = true; channel = willing; settle_error = none }
    ∷ record {
      delivery = fresh;
      calls = calls_ack none ∷ calls_retry (pos 9) willing none ∷ [];
      fails = true;
      channel = refusing;
      settle_error = none;
    }
    ∷ []

consume-IsSettled_example :
    All (λ d. IsSettled d × IsKept d) (consume handlings deliveries_closed).0
unfolding new_delivery
consume-IsSettled_example =
    consume-IsSettled handlings deliveries_closed ((refl, refl, refl), ((refl, refl, refl), tt))
      (tt, ((tt, (tt, tt)), tt))

-- A handler that rejects its delivery by the embedded method: the delivery is then acknowledged too.
rejected :
    map
      (λ d. d.ops)
      (consume
        (record {
          delivery = fresh;
          calls = calls_reject false ∷ [];
          fails = false;
          channel = willing;
          settle_error = none;
        }
          ∷ [])
        deliveries_closed).0
    ≡ (rejects false ∷ acks ∷ []) ∷ []
unfolding consume new_delivery
rejected = refl
