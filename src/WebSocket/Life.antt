-- ===== src/WebSocket/Life.antt =====
-- What a client's connections and callbacks come to, whatever its callers and its runs do.
use go_lib.Base.{
  ℕ, ◌+◌, ◌≤◌, ◌<◌, ◌≡◌, refl, Bool, true, false, ◌&&◌, Option, none, some, List, [], ◌∷◌,
  get_elem?, set, ltb, nat_beq, nat_beq_iff, if◌then◌else◌, total, total-append, total-set, arith,
  if_cases,
}
use go_lib.WebSocket.{
  Phase, checking, dialing, waiting, ended, connected, closing, Client, new_client, start, stop,
  close_done, all_ended, close_old, finish_stop, set_run, connect, disconnect, Move, checks, breaks,
  notices, cleans, wakes, dials, move, move_at, Event, starts, stops, closes_done, stops_waiting,
  moves, act, act_all,
}

-- A run with a connection, and one with the connection `k`.
abbrev pub live : Phase → ℕ
live (connected k) = 1
live (closing k) = 1
live _ = 0

abbrev pub holds : ℕ → Phase → ℕ
holds k (connected j) = if nat_beq j k then 1 else 0
holds k (closing j) = if nat_beq j k then 1 else 0
holds k _ = 0

abbrev pub count : ℕ → List ℕ → ℕ
count k [] = 0
count k (j ∷ js) = (if nat_beq j k then 1 else 0) + count k js

-- Each call of onConnect has its call of onDisconnect, but for the runs with a connection; every
-- connection that was opened is closed or in use; the client says that it is connected only if a run
-- has a connection.
pub record IsClean (c : Client) : Type 0 where
  pub paired : c.connects ≡ c.disconnects + total live c.runs
  pub closed : (k : ℕ) → k < c.opened → 0 < count k c.closes + total (holds k) c.runs
  pub honest : c.is_connected ≡ true → 0 < total live c.runs

count-close_old : (k : ℕ) (o : Option ℕ) (ks : List ℕ) → count k ks ≤ count k (close_old o ks)
count-close_old k none ks = omega arith
count-close_old k (some j) ks = ground arith

-- A step of the run `n` from one phase to another.
module _ (n : ℕ) (p q : Phase) (c : Client) (at : get_elem? c.runs n ≡ some p) where
  live_after : total live (set c.runs n q) + live p ≡ total live c.runs + live q
  live_after = total-set live c.runs n p q at

  holds_after :
      (k : ℕ) → total (holds k) (set c.runs n q) + holds k p ≡ total (holds k) c.runs + holds k q
  holds_after k = total-set (holds k) c.runs n p q at

  stays-IsClean :
      live p ≡ live q → ((k : ℕ) → holds k p ≡ holds k q) → IsClean c → IsClean (set_run n q c)
  stays-IsClean l h i = record {
    paired = omega (arith, i.paired, live_after);
    closed = λ k b. omega (arith, i.closed k b, holds_after k, h k);
    honest = λ e. omega (arith, i.honest e, live_after);
  }

connect-IsClean :
    (n : ℕ) (c : Client) → get_elem? c.runs n ≡ some dialing → IsClean c → IsClean (connect n c)
unfolding connect
connect-IsClean n c at i = record {
  paired = omega (arith, i.paired, live_after n dialing (connected c.opened) c at);
  closed = λ k b. ground (
    arith,
    i.closed k,
    holds_after n dialing (connected c.opened) c at k,
    count-close_old k c.conn c.closes,
    nat_beq_iff c.opened k,
  );
  honest = λ e. omega (arith, live_after n dialing (connected c.opened) c at);
}

disconnect-IsClean :
    (n k : ℕ) (c : Client)
    → get_elem? c.runs n ≡ some (closing k)
    → IsClean c
    → IsClean (disconnect n k c)
unfolding disconnect
disconnect-IsClean n k c at i =
    let q : Phase = if c.done_closed then ended else waiting in
    let l : live q ≡ 0 = ground arith in
    record {
      paired = omega (arith, i.paired, live_after n (closing k) q c at, l);
      closed =
          λ j b. ground (arith, i.closed j, holds_after n (closing k) q c at j, nat_beq_iff k j);
      honest = λ e. absurd (cc);
    }

runs-IsClean :
    (c : Client) (n : ℕ) (p : Phase) (b : Bool) (q r : Phase)
    → get_elem? c.runs n ≡ some p
    → live p ≡ live q
    → live p ≡ live r
    → ((k : ℕ) → holds k p ≡ holds k q)
    → ((k : ℕ) → holds k p ≡ holds k r)
    → IsClean c
    → IsClean (set_run n (if b then q else r) c)
runs-IsClean c n p true q r at a b h k i = stays-IsClean n p q c at a h i
runs-IsClean c n p false q r at a b h k i = stays-IsClean n p r c at b k i

move-IsClean :
    (p : Phase) (m : Move) (n : ℕ) (c : Client)
    → get_elem? c.runs n ≡ some p
    → IsClean c
    → IsClean (move p m n c)
unfolding move
move-IsClean checking checks n c at i =
    runs-IsClean c n checking c.done_closed ended dialing at refl refl (λ k. refl) (λ k. refl) i
move-IsClean dialing (dials true) n c at i = connect-IsClean n c at i
move-IsClean dialing (dials false) n c at i =
    stays-IsClean n dialing waiting c at refl (λ k. refl) i
move-IsClean (connected k) breaks n c at i =
    stays-IsClean n (connected k) (closing k) c at refl (λ j. refl) i
move-IsClean (connected k) notices n c at i =
    if_cases IsClean c.done_closed _ c
      (λ _. stays-IsClean n (connected k) (closing k) c at refl (λ j. refl) i) (λ _. i)
move-IsClean (closing k) cleans n c at i = disconnect-IsClean n k c at i
move-IsClean waiting wakes n c at i = stays-IsClean n waiting checking c at refl (λ k. refl) i
move-IsClean waiting notices n c at i =
    if_cases IsClean c.done_closed _ c (λ _. stays-IsClean n waiting ended c at refl (λ k. refl) i)
      (λ _. i)
move-IsClean _ _ n c at i = i

move_at-IsClean :
    (n : ℕ) (m : Move) (c : Client) (o : Option Phase)
    → get_elem? c.runs n ≡ o
    → IsClean c
    → IsClean (move_at n m c)
unfolding move_at
move_at-IsClean n m c none e i = rw (e, move_at) i
move_at-IsClean n m c (some p) e i = rw (e, move_at) (move-IsClean p m n c e i)

act-IsClean : (e : Event) (c : Client) → IsClean c → IsClean (act e c)
unfolding act start stop close_done finish_stop
act-IsClean starts c i =
    if_cases IsClean c.is_running c _ (λ _. i)
      (λ _. record {
        paired = omega (arith, i.paired, total-append live c.runs (checking ∷ []));
        closed = λ k b. omega (arith, i.closed k b, total-append (holds k) c.runs (checking ∷ []));
        honest = λ e. omega (arith, i.honest e, total-append live c.runs (checking ∷ []));
      })
act-IsClean stops c i =
    if_cases IsClean c.is_running _ c
      (λ _. record { paired = i.paired; closed = i.closed; honest = i.honest }) (λ _. i)
act-IsClean closes_done c i =
    if_cases IsClean (ltb 0 c.stopping) _ c
      (λ _. record { paired = i.paired; closed = i.closed; honest = i.honest }) (λ _. i)
act-IsClean stops_waiting c i =
    if_cases IsClean (ltb 0 c.stopping && (c.done_closed && all_ended c.runs)) _ c
      (λ _. record {
        paired = i.paired;
        closed = λ k b. omega (arith, i.closed k b, count-close_old k c.conn c.closes);
        honest = i.honest;
      })
      (λ _. i)
act-IsClean (moves n m) c i = move_at-IsClean n m c _ refl i

act_all-IsClean : (es : List Event) (c : Client) → IsClean c → IsClean (act_all es c)
unfolding act_all
act_all-IsClean [] c i = i
act_all-IsClean (e ∷ es) c i = act_all-IsClean es (act e c) (act-IsClean e c i)

-- Whatever callers of Start and Stop, the network and the runs of a new client do, in any order: the
-- calls of onDisconnect are those of onConnect less the runs that have a connection; each connection
-- that was opened is closed or in use by a run; and if the client says that it is connected, a run has
-- a connection.
pub new_client-IsClean : (es : List Event) → IsClean (act_all es new_client)
unfolding new_client
new_client-IsClean es =
    act_all-IsClean es new_client
      (record { paired = refl; closed = λ k b. absurd (omega arith); honest = λ e. cc })
