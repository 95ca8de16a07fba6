-- ===== src/RabbitMq/Delivery/Settled.antt =====
-- A delivery that is settled by its own methods is settled at most once, and never lost.
use go_lib.Base.{
  ℕ, ◌+◌, ◌≤◌, ◌≡◌, refl, ◌∙◌, ◌⊎◌, inl, inr, String, true, false, ◌&&◌, ◌||◌, Option, none, some,
  List, [], ◌∷◌, ◌++◌, ℤ, pos, Map, get, put, get-put, int_beq, ◌≤ℤ◌, if◌then◌else◌,
  comparable_string, is_some, arith, All, if_cases,
}
use go_lib.RabbitMq.{Value, int, Publishing, QueueError}
use go_lib.RabbitMq.Sending.{Channel, Outcome, returns, panics, send_messages}
use go_lib.RabbitMq.Delivery.{
  next, Op, acks, nacks, rejects, resends, tries, Delivery, ack, nack, entries, get_retry_num,
  clamp_delay, copy_of, write_headers, after_send, retry_later, Call, calls_ack, calls_nack,
  calls_retry, call, calls_embedded_ack, calls_embedded_nack, calls_reject, call_all, Handling,
  consume_one, consume,
}

-- The acknowledgements, their opposites and the rejections, and the copies that the broker confirmed.
abbrev pub settlements : List Op → ℕ
settlements [] = 0
settlements (acks ∷ os) = 1 + settlements os
settlements (nacks ∷ os) = 1 + settlements os
settlements (rejects b ∷ os) = 1 + settlements os
settlements (_ ∷ os) = settlements os

abbrev pub copies : List Op → ℕ
copies [] = 0
copies (resends c ∷ os) = 1 + copies os
copies (_ ∷ os) = copies os

settlements-append : (os ps : List Op) → settlements (os ++ ps) ≡ settlements os + settlements ps
settlements-append [] ps = omega arith
settlements-append (acks ∷ os) ps = omega (arith, settlements-append os ps)
settlements-append (nacks ∷ os) ps = omega (arith, settlements-append os ps)
settlements-append (rejects b ∷ os) ps = omega (arith, settlements-append os ps)
settlements-append (resends c ∷ os) ps = omega (arith, settlements-append os ps)
settlements-append (tries c ∷ os) ps = omega (arith, settlements-append os ps)

copies-append : (os ps : List Op) → copies (os ++ ps) ≡ copies os + copies ps
copies-append [] ps = omega arith
copies-append (acks ∷ os) ps = omega (arith, copies-append os ps)
copies-append (nacks ∷ os) ps = omega (arith, copies-append os ps)
copies-append (rejects b ∷ os) ps = omega (arith, copies-append os ps)
copies-append (resends c ∷ os) ps = omega (arith, copies-append os ps)
copies-append (tries c ∷ os) ps = omega (arith, copies-append os ps)

-- A delivery is settled once if it is marked so, and not otherwise, in one of the two ways; and the
-- broker confirmed a copy only if the delivery is acknowledged, and then one.
pub record IsSettled (d : Delivery) : Type 0 where
  pub once : settlements d.ops ≡ (if d.acked || d.nacked then 1 else 0)
  pub one_way : (d.acked && d.nacked) ≡ false
  pub copied : copies d.ops ≤ (if d.acked then 1 else 0)

ack-IsSettled : (e : Option String) (d : Delivery) → IsSettled d → IsSettled (ack e d)
unfolding ack
ack-IsSettled e d s =
    ground (arith, settlements-append d.ops (acks ∷ []), copies-append d.ops (acks ∷ []))

nack-IsSettled : (e : Option String) (d : Delivery) → IsSettled d → IsSettled (nack e d)
unfolding nack
nack-IsSettled e d s =
    ground (arith, settlements-append d.ops (nacks ∷ []), copies-append d.ops (nacks ∷ []))

write_headers-same :
    (cut : ℤ) (d : Delivery) (o : Option (Map String Value))
    → d.headers ≡ o
    → ((write_headers cut d).acked ≡ d.acked)
      × ((write_headers cut d).nacked ≡ d.nacked)
      × ((write_headers cut d).ops ≡ d.ops)
write_headers-same cut d none e = rw (e, write_headers) (refl, refl, refl)
write_headers-same cut d (some m) e = rw (e, write_headers) (refl, refl, refl)

write_headers-IsSettled : (cut : ℤ) (d : Delivery) → IsSettled d → IsSettled (write_headers cut d)
write_headers-IsSettled cut d s =
    let (a, b, c) = write_headers-same cut d d.headers refl in
    record {
      once = rw (a, b, c) s.once;
      one_way = rw (a, b) s.one_way;
      copied = rw (a, c) s.copied;
    }

after_send-IsSettled :
    (e : Option String) (c : Publishing) (o : Outcome) (d : Delivery)
    → (d.acked || d.nacked) ≡ false
    → IsSettled d
    → IsSettled (after_send e c o d)
unfolding ack
after_send-IsSettled e c (returns failed none) d free s = ground (
  arith,
  settlements-append d.ops (resends c ∷ []),
  copies-append d.ops (resends c ∷ []),
  settlements-append (d.ops ++ resends c ∷ []) (acks ∷ []),
  copies-append (d.ops ++ resends c ∷ []) (acks ∷ []),
)
after_send-IsSettled e c (returns failed (some x)) d free s =
    ground (arith, settlements-append d.ops (tries c ∷ []), copies-append d.ops (tries c ∷ []))
after_send-IsSettled e c panics d free s =
    ground (arith, settlements-append d.ops (tries c ∷ []), copies-append d.ops (tries c ∷ []))

retry_later-IsSettled :
    (delay : ℤ) (ch : Channel) (e : Option String) (d : Delivery)
    → IsSettled d
    → IsSettled (retry_later delay ch e d)
unfolding retry_later
retry_later-IsSettled delay ch e d s =
    if_cases IsSettled (int_beq d.max_delay (pos 0)) _ _ (λ _. nack-IsSettled e d s)
      (λ _.
        if_cases IsSettled (d.acked || d.nacked) _ _ (λ _. s)
          (λ free.
            let cut = clamp_delay d.max_delay delay in
            let (a, b, c) = write_headers-same cut d d.headers refl in
            after_send-IsSettled e (copy_of cut d) _ (write_headers cut d) (rw (a, b) free)
              (write_headers-IsSettled cut d s)))

-- A call of one of the delivery's own methods, and not of the embedded ones.
abbrev pub IsOwn : Call → Type 0
IsOwn (calls_ack e) = Unit {0}
IsOwn (calls_nack e) = Unit {0}
IsOwn (calls_retry z ch e) = Unit {0}
IsOwn _ = ⊥

call-IsSettled : (c : Call) (d : Delivery) → IsOwn c → IsSettled d → IsSettled (call c d)
unfolding call
call-IsSettled (calls_ack e) d own s = ack-IsSettled e d s
call-IsSettled (calls_nack e) d own s = nack-IsSettled e d s
call-IsSettled (calls_retry z ch e) d own s = retry_later-IsSettled z ch e d s
call-IsSettled calls_embedded_ack d own s = absurd own
call-IsSettled calls_embedded_nack d own s = absurd own
call-IsSettled (calls_reject b) d own s = absurd own

call_all-IsSettled :
    (cs : List Call) (d : Delivery) → All IsOwn cs → IsSettled d → IsSettled (call_all cs d)
unfolding call_all
call_all-IsSettled [] d own s = s
call_all-IsSettled (c ∷ cs) d own s =
    call_all-IsSettled cs (call c d) own.1 (call-IsSettled c d own.0 s)

-- A delivery is settled, or an error or a panic keeps it for the broker to deliver again.
abbrev pub IsKept : Delivery → Type 0
IsKept d = ((d.acked || d.nacked) ≡ true) ⊎ ((d.crashed || is_some d.err) ≡ true)

ack-IsKept : (e : Option String) (d : Delivery) → IsKept (ack e d)
unfolding ack
ack-IsKept e d = if_cases IsKept (d.acked || d.nacked) _ _ (λ h. inl h) (λ _. inl refl)

nack-IsKept : (e : Option String) (d : Delivery) → IsKept (nack e d)
unfolding nack
nack-IsKept e d = if_cases IsKept (d.acked || d.nacked) _ _ (λ h. inl h) (λ _. inl (ground arith))

after_send-IsKept :
    (e : Option String) (c : Publishing) (o : Outcome) (d : Delivery) → IsKept (after_send e c o d)
after_send-IsKept e c (returns failed none) d = ack-IsKept e _
after_send-IsKept e c (returns failed (some x)) d = inr (ground arith)
after_send-IsKept e c panics d = inr refl

retry_later-IsKept :
    (delay : ℤ) (ch : Channel) (e : Option String) (d : Delivery)
    → IsKept (retry_later delay ch e d)
unfolding retry_later
retry_later-IsKept delay ch e d =
    if_cases IsKept (int_beq d.max_delay (pos 0)) _ _ (λ _. nack-IsKept e d)
      (λ _.
        if_cases IsKept (d.acked || d.nacked) _ _ (λ h. inl h)
          (λ _.
            let cut = clamp_delay d.max_delay delay in
            let c = copy_of cut d in
            after_send-IsKept e c (send_messages ch (c ∷ [])) (write_headers cut d)))

consume_one-Settles :
    (h : Handling)
    → All IsOwn h.calls
    → IsSettled h.delivery
    → IsSettled (consume_one h) × IsKept (consume_one h)
unfolding consume_one
consume_one-Settles h own s =
    let d = call_all h.calls h.delivery in
    let s' = call_all-IsSettled h.calls h.delivery own s in
    if_cases (λ x. IsSettled x × IsKept x) h.fails _ _
      (λ _. (
        retry_later-IsSettled d.max_delay h.channel h.settle_error d s',
        retry_later-IsKept d.max_delay h.channel h.settle_error d,
      ))
      (λ _. (ack-IsSettled h.settle_error d s', ack-IsKept h.settle_error d))

-- A delivery as it comes from the broker.
abbrev pub IsNew : Handling → Type 0
IsNew h = (h.delivery.acked ≡ false) × (h.delivery.nacked ≡ false) × (h.delivery.ops ≡ [])

IsNew-IsSettled : (h : Handling) → IsNew h → IsSettled h.delivery
IsNew-IsSettled h (a, b, c) = record {
  once = rw (a, b, c) refl;
  one_way = rw a refl;
  copied = rw (a, c) (omega arith);
}

-- If handlers settle their deliveries only by Ack, Nack and RetryLater of Delivery, and by no method
-- of the embedded amqp091.Delivery, then whatever they call, and however they end: of each delivery
-- that ConsumeMessages handles, the broker is asked at most once to acknowledge it, to put it back or
-- to reject it, it has confirmed at most one copy, and only of one that was then acknowledged; and
-- the delivery is settled, or an error or a panic leaves it to the broker.
pub consume-IsSettled :
    (hs : List Handling) (end : QueueError)
    → All IsNew hs
    → All (λ h. All IsOwn h.calls) hs
    → All (λ d. IsSettled d × IsKept d) (consume hs end).0
unfolding consume
consume-IsSettled [] end new own = tt
consume-IsSettled (h ∷ hs) end new own =
    let d = consume_one h in
    let one = consume_one-Settles h own.0 (IsNew-IsSettled h new.0) in
    if_cases (λ (r : List Delivery × Option QueueError). All (λ d. IsSettled d × IsKept d) r.0)
      (d.crashed || is_some d.err) _ _ (λ _. (one, tt))
      (λ _. (one, consume-IsSettled hs end new.1 own.1))

clamp_bounds :
    (max delay : ℤ)
    → pos 1 ≤ℤ max
    → (pos 0 ≤ℤ clamp_delay max delay) × (clamp_delay max delay ≤ℤ max)
unfolding clamp_delay
clamp_bounds max delay h = ground arith

-- The copy that RetryLater sends to a delayed exchange is the delivery with a delay from zero to the
-- maximum of the queue, and with its counter of retries one higher.
pub copy_of-clamp_delay :
    (delay : ℤ) (d : Delivery)
    → pos 1 ≤ℤ d.max_delay
    → ((copy_of (clamp_delay d.max_delay delay) d).body ≡ d.body)
      × ((copy_of (clamp_delay d.max_delay delay) d).properties ≡ d.properties)
      × (get "x-delay" (entries (copy_of (clamp_delay d.max_delay delay) d).headers)
          ≡ some (int (clamp_delay d.max_delay delay)))
      × (get "x-retry-count" (entries (copy_of (clamp_delay d.max_delay delay) d).headers)
          ≡ some (int (next (get_retry_num d))))
      × (pos 0 ≤ℤ clamp_delay d.max_delay delay)
      × (clamp_delay d.max_delay delay ≤ℤ d.max_delay)
unfolding copy_of
copy_of-clamp_delay delay d h =
    let cut = clamp_delay d.max_delay delay in
    let (low, high) = clamp_bounds d.max_delay delay h in
    (
      refl,
      refl,
      get-put "x-retry-count" "x-delay" (int (next (get_retry_num d)))
            (put "x-delay" (int cut) (entries d.headers))
          ∙ get-put "x-delay" "x-delay" (int cut) (entries d.headers),
      get-put "x-retry-count" "x-retry-count" (int (next (get_retry_num d)))
          (put "x-delay" (int cut) (entries d.headers)),
      low,
      high,
    )
