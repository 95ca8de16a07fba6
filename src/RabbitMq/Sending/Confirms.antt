-- ===== src/RabbitMq/Sending/Confirms.antt =====
-- Which messages SendMessages reports as failed.
use mathlib.Core.List.{append_assoc, append-nil}
use go_lib.Base.{
  ℕ, zero, suc, ◌+◌, ◌≤◌, ◌<◌, ◌≡◌, ◌≢◌, ◌↔◌, refl, sym, ap, subst, ◌∙◌, Bool, true, false, Option,
  none, some, List, [], ◌∷◌, ◌++◌, map, length, get_elem?, drop, arith, inl, inr, String,
  Bool-cases, nat_beq, nat_beq_iff,
}
use go_lib.RabbitMq.{Publishing, QueueError, confirm_closed, confirm_timeout, undelivered}
use go_lib.RabbitMq.Sending.{
  Wait, confirmed, closed, timed_out, cancelled, Channel, persist, Outcome, returns, message_at,
  publish_from, finish, await, send_messages,
}

-- The messages that no round confirmed, from the i-th on: those with a negative confirmation, and all
-- from the round on in which none came.
abbrev pub unconfirmed : (ℕ → Wait) → ℕ → List Publishing → List Publishing
unconfirmed wait i [] = []
unconfirmed wait i (m ∷ ms) = elim (wait i) [
  | confirmed true tag ↦ unconfirmed wait (suc i) ms
  | confirmed false tag ↦ m ∷ unconfirmed wait (suc i) ms
  | _ ↦ m ∷ ms
]

-- The rounds from the i-th on, n of them, bring a positive confirmation each.
abbrev pub Acked : (ℕ → Wait) → ℕ → ℕ → Type 0
Acked wait i n = (j : ℕ) → i ≤ j → j < i + n → wait j ≡ confirmed true (suc j)

drop_cons :
    (i : ℕ) (ms : List Publishing) (m : Publishing) (rest : List Publishing)
    → drop i ms ≡ m ∷ rest
    → (get_elem? ms i ≡ some m) × (drop (suc i) ms ≡ rest)
drop_cons zero [] m rest h = cc
drop_cons zero (x ∷ xs) m rest h = (cc, cc)
drop_cons (suc i) [] m rest h = cc
drop_cons (suc i) (x ∷ xs) m rest h = drop_cons i xs m rest h

module _ (wait : ℕ → Wait) (ms : List Publishing)
    (in_order : (i : ℕ) (ack : Bool) (tag : ℕ) → wait i ≡ confirmed ack tag → tag ≡ suc i)
    (goes_on : (i : ℕ) → wait i ≢ cancelled) where
  abbrev Confirmed : List Publishing → ℕ → List Publishing → Outcome → Type 0
  Confirmed rest i failed o =
      (e : Option QueueError) × (o ≡ returns (failed ++ unconfirmed wait i rest) e)
      × ((e ≡ none) ↔ ((failed ≡ []) × Acked wait i (length rest)))

  finish-Confirmed : (i : ℕ) (failed : List Publishing) → Confirmed [] i failed (finish failed)
  finish-Confirmed i [] = (none, refl, (λ h. (refl, λ j a b. absurd (omega arith)), λ h. refl))
  finish-Confirmed i (m ∷ failed) = (
    some undelivered,
    ap (λ f. returns (m ∷ f) (some undelivered)) (sym (append-nil failed)),
    (λ h. absurd (cc), λ h. absurd (let e = h.0 in cc)),
  )

  -- No round confirms.
  cut_off :
      (m : Publishing) (rest : List Publishing) (i : ℕ) (failed : List Publishing) (x : QueueError)
      → wait i ≢ confirmed true (suc i)
      → unconfirmed wait i (m ∷ rest) ≡ m ∷ rest
      → drop i ms ≡ m ∷ rest
      → Confirmed (m ∷ rest) i failed (returns (failed ++ drop i ms) (some x))
  cut_off m rest i failed x no_ack u d = (
    some x,
    rw (u, d) refl,
    (λ h. absurd (cc), λ h. absurd (no_ack (h.1 i (omega arith) (omega arith)))),
  )

  one_more :
      (i n : ℕ) → wait i ≡ confirmed true (suc i) → Acked wait (suc i) n → Acked wait i (suc n)
  one_more i n now later j a b = elim (Bool-cases (nat_beq i j)) [
    | inl same ↦ subst (λ k. wait k ≡ confirmed true (suc k)) ((nat_beq_iff i j).0 same) now
    | inr other ↦ later j (ground arith) (omega arith)
  ]

  one_less : (i n : ℕ) → Acked wait i (suc n) → Acked wait (suc i) n
  one_less i n all j a b = all j (omega arith) (omega arith)

  not_nil : (xs : List Publishing) (m : Publishing) → xs ++ m ∷ [] ≢ []
  not_nil [] m h = cc
  not_nil (x ∷ xs) m h = cc

  round :
      (o : Wait) (m : Publishing) (rest : List Publishing) (i : ℕ) (failed : List Publishing)
      → wait i ≡ o
      → drop i ms ≡ m ∷ rest
      → ((more : List Publishing)
          → Confirmed rest (suc i) more (await wait ms (length rest) (suc i) more))
      → Confirmed (m ∷ rest) i failed (await wait ms (suc (length rest)) i failed)
  unfolding await
  round (confirmed true tag) m rest i failed e d ih =
      let t : tag ≡ suc i = in_order i true tag e in
      let now : wait i ≡ confirmed true (suc i) = e ∙ ap (confirmed true) t in
      let (x, same, iff) = ih failed in
      (
        x,
        rw (e, await, unconfirmed) same,
        (
          λ h. ((iff.0 h).0, one_more i (length rest) now (iff.0 h).1),
          λ h. iff.1 (h.0, one_less i (length rest) h.1),
        ),
      )
  round (confirmed false tag) m rest i failed e d ih =
      let t : tag ≡ suc i = in_order i false tag e in
      let at = (drop_cons i ms m rest d).0 in
      let (x, same, iff) = ih (failed ++ m ∷ []) in
      (
        x,
        rw (e, await, unconfirmed, t, message_at, at)
            (same
              ∙ ap (λ f. returns f x)
                  (append_assoc failed (m ∷ []) (unconfirmed wait (suc i) rest))),
        (
          λ h. absurd (not_nil failed m (iff.0 h).0),
          λ h. absurd (let b = h.1 i (omega arith) (omega arith) in let c = sym e ∙ b in cc),
        ),
      )
  round closed m rest i failed e d ih =
      rw (e, await)
        (cut_off m rest i failed confirm_closed (λ h. let c = sym e ∙ h in cc)
          (rw (e, unconfirmed) refl) d)
  round timed_out m rest i failed e d ih =
      rw (e, await)
        (cut_off m rest i failed confirm_timeout (λ h. let c = sym e ∙ h in cc)
          (rw (e, unconfirmed) refl) d)
  round cancelled m rest i failed e d ih = absurd (goes_on i e)

  await-Confirmed :
      (rest : List Publishing) (i : ℕ) (failed : List Publishing)
      → drop i ms ≡ rest
      → Confirmed rest i failed (await wait ms (length rest) i failed)
  unfolding await
  await-Confirmed [] i failed d = finish-Confirmed i failed
  await-Confirmed (m ∷ rest) i failed d =
      round (wait i) m rest i failed refl d
        (λ more. await-Confirmed rest (suc i) more (drop_cons i ms m rest d).1)

publish-none :
    (publish : ℕ → Option String) (ms : List Publishing) (n : ℕ)
    → ((i : ℕ) → publish i ≡ none)
    → publish_from publish n ms ≡ (none, map persist ms)
unfolding publish_from
publish-none publish [] n h = refl
publish-none publish (m ∷ ms) n h = rw (h n, publish_from, publish-none publish ms (suc n) h) refl

length-persist : (ms : List Publishing) → length (map persist ms) ≡ length ms
length-persist [] = refl
length-persist (m ∷ ms) = ap suc (length-persist ms)

-- If the connection gives a channel, publishing works, and the broker numbers its confirmations in
-- the order of the messages, as it documents, then SendMessages returns, unless its context ends,
-- exactly the messages that were not confirmed, in their order; and it returns no error exactly if
-- every message was confirmed.
pub send_messages-Confirmed :
    (ch : Channel) (ms : List Publishing)
    → ch.get_ch ≡ none
    → ch.confirm ≡ none
    → ((i : ℕ) → ch.publish i ≡ none)
    → ((i : ℕ) (ack : Bool) (tag : ℕ) → ch.wait i ≡ confirmed ack tag → tag ≡ suc i)
    → ((i : ℕ) → ch.wait i ≢ cancelled)
    → (e : Option QueueError) × (send_messages ch ms
        ≡ returns (unconfirmed ch.wait 0 (map persist ms)) e)
      × ((e ≡ none) ↔ Acked ch.wait 0 (length ms))
unfolding send_messages
send_messages-Confirmed ch ms opened mode published in_order goes_on =
    let (x, same, iff) =
      await-Confirmed ch.wait (map persist ms) in_order goes_on (map persist ms) 0 [] refl in
    (
      x,
      rw (opened, send_messages, mode, publish-none ch.publish ms 0 published) same,
      (
        λ h. subst (Acked ch.wait 0) (length-persist ms) (iff.0 h).1,
        λ h. iff.1 (refl, subst (Acked ch.wait 0) (sym (length-persist ms)) h),
      ),
    )
