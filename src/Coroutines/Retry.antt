-- ===== src/Coroutines/Retry.antt =====
-- common/coroutines/coroutines.go: Retry. The context is asked before each call of the function.
use go_lib.Base.{
  ℕ, zero, suc, ◌+◌, ◌≤◌, ◌<◌, ◌≡◌, refl, ap, sym, ◌∙◌, inl, inr, String, Bool, true, false, List,
  [], ◌∷◌, ◌++◌, Option, none, some, length, length-append, ltb, is_some, Bool-cases, Option-cases,
  arith,
}
use go_lib.Coroutines.{Message, retry_error, retries_exceeded}

-- What `Retry` returns: nil, the error of its last call, or that of the context.
pub data Answer : Type 0 where
  succeeded cancelled : Answer
  failed : String → Answer

-- The function's error at its n-th call, none for nil, and whether the context is done before it.
pub record World : Type 0 where
  pub f : ℕ → Option String
  pub done : ℕ → Bool

-- The answer, the number of calls, and the messages.
pub record Result : Type 0 where
  pub answer : Answer
  pub calls : ℕ
  pub sent : List Message

abbrev exceeds : Option ℕ → ℕ → Bool
exceeds none retries = false
exceeds (some limit) retries = ltb limit retries

-- The loop after `retries` failed calls; `limit` is none for a negative number of retries.
unfoldable pub retry_from : ℕ → World → Option ℕ → ℕ → List Message → Option Result
retry_from zero w limit retries sent = none
retry_from (suc fuel) w limit retries sent = elim (w.done retries) [
  | true ↦ some (record { answer = cancelled; calls = retries; sent = sent })
  | false ↦ elim (w.f retries) [
    | none ↦ some (record { answer = succeeded; calls = suc retries; sent = sent })
    | some e ↦ elim (exceeds limit (suc retries)) [
      | true ↦ some (record {
        answer = failed e;
        calls = suc retries;
        sent = sent ++ retries_exceeded e ∷ [];
      })
      | false ↦ retry_from fuel w limit (suc retries) (sent ++ retry_error e ∷ [])
    ]
  ]
]

unfoldable pub retry : ℕ → World → Option ℕ → Option Result
unfolding retry_from
retry fuel w limit = retry_from fuel w limit 0 []

-- The first `n` calls failed, with the context not done before them.
abbrev pub AllFailed : World → ℕ → Type 0
AllFailed w n = (i : ℕ) → i < n → (is_some (w.f i) ≡ true) × (w.done i ≡ false)

-- What the answer says of the calls.
abbrev pub Explains : World → ℕ → Answer → ℕ → Type 0
Explains w limit succeeded n =
    (m : ℕ) × (n ≡ suc m) × (w.f m ≡ none) × (w.done m ≡ false) × AllFailed w m
Explains w limit (failed e) n = (n ≡ suc limit) × (w.f limit ≡ some e) × AllFailed w n
Explains w limit cancelled n = (w.done n ≡ true) × AllFailed w n

abbrev pub IsExplained : World → ℕ → Option Result → Type 0
IsExplained w limit none = ⊥
IsExplained w limit (some r) =
    (r.calls ≤ suc limit) × Explains w limit r.answer r.calls × (length r.sent ≤ r.calls)

AllFailed-suc :
    (w : World) (n : ℕ) (e : String)
    → AllFailed w n
    → w.f n ≡ some e
    → w.done n ≡ false
    → AllFailed w (suc n)
AllFailed-suc w n e all fails going i lt = elim (Bool-cases (ltb i n)) [
  | inl below ↦ all i (ground arith)
  | inr above ↦ let same : i ≡ n = ground arith in rw same (rw fails refl, going)
]

retry_from-IsExplained :
    (fuel limit retries : ℕ) (w : World) (sent : List Message)
    → limit + 1 < fuel + retries
    → retries ≤ limit
    → length sent ≤ retries
    → AllFailed w retries
    → IsExplained w limit (retry_from fuel w (some limit) retries sent)
unfolding retry_from
retry_from-IsExplained zero limit retries w sent enough le few all = absurd (omega arith)
retry_from-IsExplained (suc fuel) limit retries w sent enough le few all =
    elim (Bool-cases (w.done retries)) [
      | inl done ↦ rw (done, retry_from) (omega arith, (done, all), few)
      | inr going ↦ elim (Option-cases (w.f retries)) [
        | inl nil ↦
            rw (going, retry_from, nil) (omega arith, (retries, refl, nil, going, all), omega arith)
        | inr (e, fails) ↦ elim (Bool-cases (ltb limit (suc retries))) [
          | inl over ↦
              let fin : retries ≡ limit = ground arith in
              rw (going, retry_from, fails, over)
                (
                  omega arith,
                  (ap suc fin, rw (← fin) fails, AllFailed-suc w retries e all fails going),
                  omega (arith, length-append sent (retries_exceeded e ∷ [])),
                )
          | inr under ↦
              rw (going, retry_from, fails, under)
                (retry_from-IsExplained fuel limit (suc retries) w (sent ++ retry_error e ∷ [])
                  (omega arith) (ground arith)
                  (omega (arith, length-append sent (retry_error e ∷ [])))
                  (AllFailed-suc w retries e all fails going))
        ]
      ]
    ]

-- With a limit of `limit` retries, Retry returns: nil after the first call that succeeded, the error
-- of call number `limit + 1` if all of these failed, or the context's error if the context was done
-- before a call. All the calls before failed, with the context not done before them. There are at
-- most `limit + 1` calls, and at most one message for each.
pub retry-IsExplained :
    (fuel limit : ℕ) (w : World)
    → limit + 1 < fuel
    → IsExplained w limit (retry fuel w (some limit))
unfolding retry
retry-IsExplained fuel limit w enough =
    retry_from-IsExplained fuel limit 0 w [] (omega arith) (omega arith) (omega arith)
      (λ i lt. absurd (omega arith))

still_short :
    (retries t : ℕ) (w : World)
    → retries ≤ t
    → w.done t ≡ true
    → w.done retries ≡ false
    → suc retries ≤ t
still_short retries t w le d going = elim (Bool-cases (ltb retries t)) [
  | inl below ↦ ground arith
  | inr above ↦
      let same : retries ≡ t = ground arith in
      let both : true ≡ false = sym d ∙ (ap w.done (sym same) ∙ going) in absurd (cc)
]

retry_from-is_some :
    (fuel t retries : ℕ) (w : World) (limit : Option ℕ) (sent : List Message)
    → retries ≤ t
    → t < fuel + retries
    → w.done t ≡ true
    → is_some (retry_from fuel w limit retries sent) ≡ true
unfolding retry_from
retry_from-is_some zero t retries w limit sent le enough d = absurd (omega arith)
retry_from-is_some (suc fuel) t retries w limit sent le enough d =
    elim (Bool-cases (w.done retries)) [
      | inl done ↦ rw (done, retry_from) refl
      | inr going ↦
          let short : suc retries ≤ t = still_short retries t w le d going in
          let ih = λ (more : List Message).
            retry_from-is_some fuel t (suc retries) w limit more short (omega arith) d in
          elim (Option-cases (w.f retries)) [
            | inl nil ↦ rw (going, retry_from, nil) refl
            | inr (e, fails) ↦ elim (Bool-cases (exceeds limit (suc retries))) [
              | inl over ↦ rw (going, retry_from, fails, over) refl
              | inr under ↦ rw (going, retry_from, fails, under) (ih (sent ++ retry_error e ∷ []))
            ]
          ]
    ]

-- If the context is done at some time, Retry returns, without a limit too, and however often its
-- function fails.
pub retry-is_some :
    (fuel t : ℕ) (w : World) (limit : Option ℕ)
    → w.done t ≡ true
    → t < fuel
    → is_some (retry fuel w limit) ≡ true
unfolding retry
retry-is_some fuel t w limit d enough =
    retry_from-is_some fuel t 0 w limit [] (omega arith) (omega arith) d
