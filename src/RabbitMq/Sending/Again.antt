-- ===== src/RabbitMq/Sending/Again.antt =====
-- What SendMessagesEvery sends again.
use go_lib.Base.{
  Bool-cases, ℕ, zero, suc, ◌≡◌, refl, sym, ap, subst, true, false, Option, none, some, List, [],
  ◌∷◌, ◌++◌, length, inl, inr, String, All, Option-cases,
}
use go_lib.RabbitMq.{Publishing}
use go_lib.RabbitMq.Sending.{
  Wait, confirmed, closed, timed_out, cancelled, Channel, Outcome, returns, panics, message_at,
  publish_from, finish, await, confirm_all, send_messages, World, Every, succeeded, stopped,
  crashed, starved, send_every, next_pending,
}

-- What SendMessages returns without an error is no message.
abbrev NoneLeft : Outcome → Type 0
NoneLeft (returns failed none) = failed ≡ []
NoneLeft (returns failed (some e)) = Unit {0}
NoneLeft panics = Unit {0}

finish-NoneLeft : (failed : List Publishing) → NoneLeft (finish failed)
finish-NoneLeft [] = refl
finish-NoneLeft (m ∷ ms) = tt

await-NoneLeft :
    (wait : ℕ → Wait) (ms : List Publishing) (rounds i : ℕ) (failed : List Publishing)
    → NoneLeft (await wait ms rounds i failed)
unfolding await
await-NoneLeft wait ms zero i failed = finish-NoneLeft failed
await-NoneLeft wait ms (suc rounds) i failed =
    go (wait i) refl (await-NoneLeft wait ms rounds (suc i))
  where
    nacked :
        (o : Option Publishing)
        → ((more : List Publishing) → NoneLeft (await wait ms rounds (suc i) more))
        → NoneLeft
            (elim o [ none ↦ panics | some m ↦ await wait ms rounds (suc i) (failed ++ m ∷ []) ])
    nacked none ih = tt
    nacked (some m) ih = ih (failed ++ m ∷ [])

    go :
        (o : Wait)
        → wait i ≡ o
        → ((more : List Publishing) → NoneLeft (await wait ms rounds (suc i) more))
        → NoneLeft (await wait ms (suc rounds) i failed)
    go (confirmed true tag) e ih = rw (e, await) (ih failed)
    go (confirmed false tag) e ih = rw (e, await) (nacked (message_at tag ms) ih)
    go closed e ih = rw (e, await) tt
    go timed_out e ih = rw (e, await) tt
    go cancelled e ih = rw (e, await) tt

confirm_all-NoneLeft :
    (ch : Channel) (r : Option String × List Publishing) → NoneLeft (confirm_all ch r)
confirm_all-NoneLeft ch (some e, ms) = tt
confirm_all-NoneLeft ch (none, ms) = await-NoneLeft ch.wait ms (length ms) 0 []

send_messages-NoneLeft : (ch : Channel) (ms : List Publishing) → NoneLeft (send_messages ch ms)
unfolding send_messages
send_messages-NoneLeft ch ms = elim (Option-cases ch.get_ch) [
  | inr (e, h) ↦ rw (h, send_messages) tt
  | inl h ↦ elim (Option-cases ch.confirm) [
    | inr (e, k) ↦ rw (h, send_messages, k) tt
    | inl k ↦ rw (h, send_messages, k) (confirm_all-NoneLeft ch (publish_from ch.publish 0 ms))
  ]
]

-- The last batch of a list, and what it came to at its attempt.
abbrev pub LastSucceeds : World → ℕ → Every × List (List Publishing) → Type 0
LastSucceeds w n (succeeded, []) = ⊥
LastSucceeds w n (succeeded, b ∷ []) = send_messages (w.channel n) b ≡ returns [] none
LastSucceeds w n (succeeded, b ∷ c ∷ bs) = LastSucceeds w (suc n) (succeeded, c ∷ bs)
LastSucceeds w n (_, bs) = Unit {0}

module _ (w : World) (messages : List Publishing) where
  abbrev Whole : ℕ → Every × List (List Publishing) → Type 0
  Whole n r = All (λ b. b ≡ messages) r.1 × LastSucceeds w n r

  later :
      (n : ℕ) (r : Every × List (List Publishing)) → Whole (suc n) r → Whole n (r.0, messages ∷ r.1)
  later n (succeeded, []) (a, b) = absurd b
  later n (succeeded, c ∷ bs) (a, b) = ((refl, a), b)
  later n (stopped, bs) (a, b) = ((refl, a), tt)
  later n (crashed, bs) (a, b) = ((refl, a), tt)
  later n (starved, bs) (a, b) = ((refl, a), tt)

  after_error :
      (n : ℕ) (r : Every × List (List Publishing))
      → Whole (suc n) r
      → Whole n (elim (w.done_after n) [
        | true ↦ (stopped, messages ∷ [])
        | false ↦ (r.0, messages ∷ r.1)
      ])
  after_error n r ih = elim (Bool-cases (w.done_after n)) [
    | inl over ↦ rw over ((refl, tt), tt)
    | inr on ↦ rw on (later n r ih)
  ]

  same_batch :
      (fuel n : ℕ) {batch : List Publishing}
      → batch ≡ messages
      → Whole (suc n) (send_every fuel w (suc n) messages messages)
      → Whole (suc n) (send_every fuel w (suc n) messages batch)
  same_batch fuel n e ih =
      subst (λ b. Whole (suc n) (send_every fuel w (suc n) messages b)) (sym e) ih

  attempt :
      (fuel n : ℕ) (o : Outcome)
      → w.done_before n ≡ false
      → send_messages (w.channel n) messages ≡ o
      → NoneLeft o
      → Whole (suc n) (send_every fuel w (suc n) messages messages)
      → Whole n (send_every (suc fuel) w n messages messages)
  unfolding send_every
  attempt fuel n panics on e left ih = rw (on, send_every, e) ((refl, tt), tt)
  attempt fuel n (returns [] none) on e left ih = rw (on, send_every, e) ((refl, tt), e)
  attempt fuel n (returns (m ∷ ms) none) on e left ih = absurd (cc)
  attempt fuel n (returns [] (some x)) on e left ih =
      rw (on, send_every, e) (after_error n _ (same_batch fuel n (ap (next_pending messages) e) ih))
  attempt fuel n (returns (m ∷ ms) (some x)) on e left ih =
      rw (on, send_every, e) (after_error n _ (same_batch fuel n (ap (next_pending messages) e) ih))

  every-Whole : (fuel n : ℕ) → Whole n (send_every fuel w n messages messages)
  unfolding send_every
  every-Whole zero n = (tt, tt)
  every-Whole (suc fuel) n = elim (Bool-cases (w.done_before n)) [
    | inl over ↦ rw (over, send_every) (tt, tt)
    | inr on ↦
        attempt fuel n (send_messages (w.channel n) messages) on refl
          (send_messages-NoneLeft (w.channel n) messages) (every-Whole fuel (suc n))
  ]

  -- Each attempt of SendMessagesEvery, in the mode of confirms, hands all the messages of the call to
  -- SendMessages, also those that an earlier attempt saw confirmed. It succeeds only with an attempt
  -- that sent all of them without an error, and that is the last one.
  pub send_every-whole :
      (fuel : ℕ)
      → All (λ b. b ≡ messages) (send_every fuel w 0 messages messages).1
        × LastSucceeds w 0 (send_every fuel w 0 messages messages)
  send_every-whole fuel = every-Whole fuel 0
