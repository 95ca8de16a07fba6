-- ===== src/WebSocket/Stopped.antt =====
-- What a client does after its Stop.
use go_lib.Base.{
  ℕ, zero, suc, ◌≡◌, refl, subst, ◌∙◌, true, ◌&&◌, Option, none, some, List, [], ◌∷◌, ◌++◌,
  get_elem?, set, ltb, if_cases, All,
}
use go_lib.WebSocket.{
  Phase, checking, dialing, waiting, ended, connected, closing, Client, start, stop, close_done,
  all_ended, finish_stop, Move, checks, breaks, notices, cleans, wakes, dials, move, move_at, Event,
  starts, stops, closes_done, stops_waiting, moves, act, act_all,
}

-- After Stop: `done` stays closed, and a run that Start begins returns at its first test.
abbrev Over : Phase → Type 0
Over checking = Unit {0}
Over ended = Unit {0}
Over _ = ⊥

record IsOver (c : Client) : Type 0 where
  stopped : c.done_closed ≡ true
  over : All Over c.runs

all_ended-Over : (rs : List Phase) → all_ended rs ≡ true → All Over rs
all_ended-Over [] h = tt
all_ended-Over (ended ∷ rs) h = (tt, all_ended-Over rs h)
all_ended-Over (checking ∷ rs) h = cc
all_ended-Over (dialing ∷ rs) h = cc
all_ended-Over (waiting ∷ rs) h = cc
all_ended-Over (connected k ∷ rs) h = cc
all_ended-Over (closing k ∷ rs) h = cc

Over-set : (rs : List Phase) (n : ℕ) (p : Phase) → Over p → All Over rs → All Over (set rs n p)
Over-set [] n p o a = tt
Over-set (r ∷ rs) zero p o a = (o, a.1)
Over-set (r ∷ rs) (suc n) p o a = (a.0, Over-set rs n p o a.1)

Over-snoc : (rs : List Phase) → All Over rs → All Over (rs ++ checking ∷ [])
Over-snoc [] a = (tt, tt)
Over-snoc (r ∷ rs) a = (a.0, Over-snoc rs a.1)

Over-at : (rs : List Phase) (n : ℕ) (p : Phase) → get_elem? rs n ≡ some p → All Over rs → Over p
Over-at [] n p e a = absurd (cc)
Over-at (r ∷ rs) zero p e a = subst Over (let s : r ≡ p = cc in s) a.0
Over-at (r ∷ rs) (suc n) p e a = Over-at rs n p e a.1

abbrev Stays : Client → Client → Type 0
Stays c d = IsOver d × (d.opened ≡ c.opened) × (d.connects ≡ c.connects)

stay : (c : Client) → IsOver c → Stays c c
stay c i = (i, refl, refl)

move-Stays :
    (p : Phase) (m : Move) (n : ℕ) (c : Client) → Over p → IsOver c → Stays c (move p m n c)
unfolding move
move-Stays checking checks n c o i =
    rw i.stopped (record { stopped = refl; over = Over-set c.runs n ended tt i.over }, refl, refl)
move-Stays checking breaks n c o i = stay c i
move-Stays checking notices n c o i = stay c i
move-Stays checking cleans n c o i = stay c i
move-Stays checking wakes n c o i = stay c i
move-Stays checking (dials b) n c o i = stay c i
move-Stays ended m n c o i = stay c i
move-Stays dialing m n c o i = absurd o
move-Stays waiting m n c o i = absurd o
move-Stays (connected k) m n c o i = absurd o
move-Stays (closing k) m n c o i = absurd o

move_at-Stays :
    (n : ℕ) (m : Move) (c : Client) (o : Option Phase)
    → get_elem? c.runs n ≡ o
    → IsOver c
    → Stays c (move_at n m c)
unfolding move_at
move_at-Stays n m c none e i = rw (e, move_at) (stay c i)
move_at-Stays n m c (some p) e i =
    rw (e, move_at) (move-Stays p m n c (Over-at c.runs n p e i.over) i)

act-Stays : (e : Event) (c : Client) → IsOver c → Stays c (act e c)
unfolding act start stop close_done finish_stop
act-Stays starts c i =
    if_cases (Stays c) c.is_running c _ (λ _. stay c i)
      (λ _. (record { stopped = i.stopped; over = Over-snoc c.runs i.over }, refl, refl))
act-Stays stops c i =
    if_cases (Stays c) c.is_running _ c
      (λ _. (record { stopped = i.stopped; over = i.over }, refl, refl)) (λ _. stay c i)
act-Stays closes_done c i =
    if_cases (Stays c) (ltb 0 c.stopping) _ c
      (λ _. (record { stopped = refl; over = i.over }, refl, refl)) (λ _. stay c i)
act-Stays stops_waiting c i =
    if_cases (Stays c) (ltb 0 c.stopping && (c.done_closed && all_ended c.runs)) _ c
      (λ _. (record { stopped = i.stopped; over = i.over }, refl, refl)) (λ _. stay c i)
act-Stays (moves n m) c i = move_at-Stays n m c _ refl i

act_all-Stays : (es : List Event) (c : Client) → IsOver c → Stays c (act_all es c)
unfolding act_all
act_all-Stays [] c i = stay c i
act_all-Stays (e ∷ es) c i =
    let (j, a, b) = act-Stays e c i in
    let (k, a', b') = act_all-Stays es (act e c) j in (k, a' ∙ a, b' ∙ b)

-- A client whose Stop has closed `done` and waited for its runs never connects again: whatever is
-- called afterwards, Start included, no connection is opened, and onConnect is not called.
pub act_all-stopped :
    (es : List Event) (c : Client)
    → c.done_closed ≡ true
    → all_ended c.runs ≡ true
    → ((act_all es c).opened ≡ c.opened) × ((act_all es c).connects ≡ c.connects)
act_all-stopped es c h a =
    let (over, opened, connects) =
      act_all-Stays es c (record { stopped = h; over = all_ended-Over c.runs a }) in
    (opened, connects)
