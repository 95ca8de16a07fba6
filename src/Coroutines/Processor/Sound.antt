-- ===== src/Coroutines/Processor/Sound.antt =====
-- What holds in every state of a ConcurrentProcessor.
use go_lib.Base.{
  ℕ, zero, suc, ◌+◌, ◌-◌, ltb, ◌≤◌, ◌<◌, ◌≡◌, ◌≢◌, refl, ◌⊎◌, inl, inr, true, false, List, [], ◌∷◌,
  ◌++◌, length, length-append, replicate, All, ap, ◌∙◌, leb, Bool-cases, arith,
}
use mathlib.Core.List.{append_assoc, append-nil}
use go_lib.Coroutines.Processor.{
  Processor, Event, cancels, sends, gives_up, closes, joins, takes, quits_done, quits_closed,
  finishes, dies, start, close_channel, sends_one, closes_after, takes_one, quits_empty, step,
  steps, IsSound,
}

module _ {ℓ} {T : Type ℓ} where
  sends-IsSound :
      (n : ℕ) (items xs : List T) (p : Processor T)
      → p.left ≡ xs
      → IsSound n items p
      → IsSound n items (sends_one xs p)
  sends-IsSound n items [] p e s = s
  sends-IsSound n items (x ∷ xs) p e s =
      ground (arith, length-append p.buffer (x ∷ []), append_assoc p.buffer (x ∷ []) xs)

  closes-IsSound :
      (n : ℕ) (items xs : List T) (p : Processor T)
      → p.left ≡ xs
      → IsSound n items p
      → IsSound n items (closes_after xs p)
  unfolding close_channel
  closes-IsSound n items [] p e s = ground arith
  closes-IsSound n items (x ∷ xs) p e s = s

  takes-IsSound :
      (n : ℕ) (items xs : List T) (p : Processor T)
      → p.buffer ≡ xs
      → IsSound n items p
      → IsSound n items (takes_one xs p)
  takes-IsSound n items [] p e s = s
  takes-IsSound n items (x ∷ xs) p e s =
      ground (arith, append_assoc p.taken (x ∷ []) (xs ++ p.left))

  quits-IsSound :
      (n : ℕ) (items xs : List T) (p : Processor T)
      → p.buffer ≡ xs
      → IsSound n items p
      → IsSound n items (quits_empty xs p)
  quits-IsSound n items [] p e s = ground arith
  quits-IsSound n items (x ∷ xs) p e s = s

  step-IsSound :
      (n : ℕ) (items : List T) (e : Event) (p : Processor T)
      → IsSound n items p
      → IsSound n items (step e p)
  unfolding step close_channel
  step-IsSound n items cancels p s = ground arith
  step-IsSound n items sends p s = sends-IsSound n items p.left p refl s
  step-IsSound n items gives_up p s = ground arith
  step-IsSound n items closes p s = closes-IsSound n items p.left p refl s
  step-IsSound n items joins p s = ground arith
  step-IsSound n items takes p s = takes-IsSound n items p.buffer p refl s
  step-IsSound n items quits_done p s = ground arith
  step-IsSound n items quits_closed p s = quits-IsSound n items p.buffer p refl s
  step-IsSound n items finishes p s = ground arith
  step-IsSound n items dies p s = ground arith

  pub steps-IsSound :
      (n : ℕ) (items : List T) (es : List Event) (p : Processor T)
      → IsSound n items p
      → IsSound n items (steps es p)
  unfolding steps
  steps-IsSound n items [] p s = s
  steps-IsSound n items (e ∷ es) p s =
      steps-IsSound n items es (step e p) (step-IsSound n items e p s)

  pub start-IsSound : (n : ℕ) (items : List T) → IsSound n items (start n items)
  unfolding start
  start-IsSound n items = ground arith

  ended_lem :
      (limit : ℕ) (items : List T) (p : Processor T)
      → IsSound limit items p
      → (p.returned ≡ false)
        ⊎ (p.ctx_done ≡ true)
        ⊎ (limit ≤ p.dead)
        ⊎ ((p.taken ≡ items) × (p.busy ≡ 0))
  ended_lem limit items p s = elim (Bool-cases (leb limit p.dead)) [
    | inl many ↦ inr (inr (inl (ground arith)))
    | inr few ↦ ground (arith, append-nil p.taken)
  ]

  -- However the sender and the workers interleave: the channel is not closed twice or sent to after
  -- its closing, and the items that the workers took are the first ones, in order, with at most
  -- `limit` being processed at a time. If the call has returned, the context is not done, and fewer
  -- than `limit` of the calls for an item panicked, then every item was taken, and none is in
  -- process.
  pub steps-start :
      (limit : ℕ) (items : List T) (es : List Event)
      → let p = steps es (start limit items) in
        (p.panicked ≡ false)
        × (p.taken ++ (p.buffer ++ p.left) ≡ items)
        × (p.busy ≤ limit)
        × ((p.returned ≡ false)
            ⊎ (p.ctx_done ≡ true)
            ⊎ (limit ≤ p.dead)
            ⊎ ((p.taken ≡ items) × (p.busy ≡ 0)))
  steps-start limit items es =
      let s = steps-IsSound limit items es (start limit items) (start-IsSound limit items) in
      (
        s.no_panic,
        s.in_order,
        omega (arith, s.workers),
        ended_lem limit items (steps es (start limit items)) s,
      )

  stuck-by :
      (e : Event) (p : Processor T) (left buffer : List T)
      → p.left ≡ left
      → p.buffer ≡ buffer
      → p.idle + p.busy ≡ 0
      → p.ch_closed ≡ false
      → p.ctx_done ≡ false
      → p.limit ≤ length buffer
      → left ≢ []
      → (e ≡ cancels) ⊎ (step e p ≡ p)
  unfolding step
  stuck-by cancels p ls bs l b none_left still going full more = inl refl
  stuck-by sends p [] bs l b none_left still going full more = absurd (more refl)
  stuck-by sends p (x ∷ xs) bs l b none_left still going full more = ground arith
  stuck-by gives_up p ls bs l b none_left still going full more = ground arith
  stuck-by closes p [] bs l b none_left still going full more = absurd (more refl)
  stuck-by closes p (x ∷ xs) bs l b none_left still going full more = ground arith
  stuck-by joins p ls bs l b none_left still going full more = ground arith
  stuck-by takes p ls [] l b none_left still going full more = ground arith
  stuck-by takes p ls (x ∷ xs) l b none_left still going full more = ground arith
  stuck-by quits_done p ls bs l b none_left still going full more = ground arith
  stuck-by quits_closed p ls [] l b none_left still going full more = ground arith
  stuck-by quits_closed p ls (x ∷ xs) l b none_left still going full more = ground arith
  stuck-by finishes p ls bs l b none_left still going full more = ground arith
  stuck-by dies p ls bs l b none_left still going full more = ground arith

  step-dies :
      (p : Processor T)
      → 0 < p.busy
      → step dies p ≡ record p { busy = p.busy - 1; dead = suc p.dead }
  unfolding step
  step-dies p h = let works : ltb 0 p.busy ≡ true = ground arith in rw (works, step) refl

  -- `n` panics one after another, of workers that all process an item.
  steps-dies :
      (n : ℕ) (p : Processor T)
      → n ≤ p.busy
      → steps (replicate n dies) p ≡ record p { busy = p.busy - n; dead = p.dead + n }
  unfolding steps
  steps-dies zero p h =
      let same : p.busy - 0 ≡ p.busy = omega arith in
      let none_more : p.dead + 0 ≡ p.dead = omega arith in rw (same, none_more) refl
  steps-dies (suc n) p h =
      let fewer : p.busy - 1 - n ≡ p.busy - suc n = omega arith in
      let more : suc p.dead + n ≡ p.dead + suc n = omega arith in
      ap (steps (replicate n dies)) (step-dies p (omega arith))
      ∙ steps-dies n (record p { busy = p.busy - 1; dead = suc p.dead }) (omega arith)
      ∙ rw (fewer, more) refl

  steps-stuck :
      (es : List Event) (p : Processor T)
      → All (λ e. e ≢ cancels) es
      → ((e : Event) → (e ≡ cancels) ⊎ (step e p ≡ p))
      → steps es p ≡ p
  unfolding steps
  steps-stuck [] p going h = refl
  steps-stuck (e ∷ es) p going h = elim (h e) [
    | inl ends ↦ absurd (going.0 ends)
    | inr same ↦ ap (steps es) same ∙ steps-stuck es p going.1 h
  ]

  -- In a state that a call reaches, in which every worker processes an item, the channel is full and
  -- open, the context is not done and there are items to send: if the calls for these `limit` items
  -- panic, then whatever happens next but the end of the context changes nothing, and the call does
  -- not return.
  pub steps-after_dies :
      (limit : ℕ) (items : List T) (es : List Event) (p : Processor T)
      → IsSound limit items p
      → p.busy ≡ limit
      → p.ch_closed ≡ false
      → p.ctx_done ≡ false
      → length p.buffer ≡ limit
      → p.left ≢ []
      → All (λ e. e ≢ cancels) es
      → let jammed = steps (replicate limit dies) p in
        (steps es jammed ≡ jammed) × (jammed.returned ≡ false)
  steps-after_dies limit items es p s working still going full more others =
      rw (steps-dies limit p (omega arith)) (
        steps-stuck es (record p { busy = p.busy - limit; dead = p.dead + limit }) others
            (λ e.
              stuck-by e (record p { busy = p.busy - limit; dead = p.dead + limit }) p.left p.buffer
                refl refl (omega (arith, s.workers)) still going (omega (arith, s.same_limit))
                more),
        not_returned,
      )
    where
      not_returned : p.returned ≡ false
      not_returned = elim s.all_ended [
        | inl open_yet ↦ open_yet
        | inr ended ↦ absurd (let c = ended.0 in cc)
      ]
