-- ===== src/WebSocket.antt =====
-- net/ws/client.go: the life of a client, one step of one goroutine at a time.
pub mod Life
pub mod Stopped
mod Examples
use go_lib.Base.{
  ℕ, zero, suc, ◌+◌, ◌-◌, Bool, true, false, not, ◌&&◌, Option, none, some, List, [], ◌∷◌, ◌++◌,
  get_elem?, set, ltb, nat_beq, if◌then◌else◌,
}

-- Where a call of `run` stands: before its test of `done`; in `connect`; in a wait between two tries;
-- with a connection, or on the way to close it; and after its return.
pub data Phase : Type 0 where
  checking dialing waiting ended : Phase
  connected closing : ℕ → Phase

-- The connections are numbered as they are opened. `closes` has those on which Close was called,
-- `connects` and `disconnects` count the calls of onConnect and onDisconnect, and `stopping` the calls
-- of Stop that have set `isRunning` and not returned.
pub record Client : Type 0 where
  pub is_running : Bool
  pub is_connected : Bool
  pub done_closed : Bool
  pub conn : Option ℕ
  pub runs : List Phase
  pub opened : ℕ
  pub closes : List ℕ
  pub connects : ℕ
  pub disconnects : ℕ
  pub stopping : ℕ

unfoldable pub new_client : Client
new_client = record {
  is_running = false;
  is_connected = false;
  done_closed = false;
  conn = none;
  runs = [];
  opened = 0;
  closes = [];
  connects = 0;
  disconnects = 0;
  stopping = 0;
}

unfoldable pub start : Client → Client
start c = if c.is_running then c else record c { is_running = true; runs = c.runs ++ checking ∷ [] }

-- The three parts of `Stop`: its compare-and-swap, the close of `done`, and, when no run is left, the
-- close of the connection.
unfoldable pub stop : Client → Client
stop c = if c.is_running then record c { is_running = false; stopping = suc c.stopping } else c

unfoldable pub close_done : Client → Client
close_done c = if ltb 0 c.stopping then record c { done_closed = true } else c

abbrev pub all_ended : List Phase → Bool
all_ended [] = true
all_ended (ended ∷ rs) = all_ended rs
all_ended (_ ∷ rs) = false

-- `closeConn`, and the part of `connect` that closes the connection which was there.
abbrev pub close_old : Option ℕ → List ℕ → List ℕ
close_old none ks = ks
close_old (some k) ks = k ∷ ks

unfoldable pub finish_stop : Client → Client
finish_stop c =
    if ltb 0 c.stopping && (c.done_closed && all_ended c.runs)
    then record c { conn = none; closes = close_old c.conn c.closes; stopping = c.stopping - 1 }
    else c

abbrev pub set_run : ℕ → Phase → Client → Client
set_run n p c = record c { runs = set c.runs n p }

-- `connect` with a connection, and the code up to onConnect.
unfoldable pub connect : ℕ → Client → Client
connect n c = record (set_run n (connected c.opened) c) {
  conn = some c.opened;
  closes = close_old c.conn c.closes;
  opened = suc c.opened;
  is_connected = true;
  connects = suc c.connects;
}

-- `closeSpecificConn`
abbrev pub forget : ℕ → Option ℕ → Option ℕ
forget k none = none
forget k (some j) = if nat_beq j k then none else some j

-- The code from `cancelConn` on, up to the wait or the return.
unfoldable pub disconnect : ℕ → ℕ → Client → Client
disconnect n k c = record (set_run n (if c.done_closed then ended else waiting) c) {
  conn = forget k c.conn;
  closes = k ∷ c.closes;
  is_connected = false;
  disconnects = suc c.disconnects;
}

pub data Move : Type 0 where
  checks breaks notices cleans wakes : Move
  dials : Bool → Move

-- What the n-th run does next; nothing, if it cannot.
unfoldable pub move : Phase → Move → ℕ → Client → Client
unfolding connect disconnect
move checking checks n c = set_run n (if c.done_closed then ended else dialing) c
move dialing (dials true) n c = connect n c
move dialing (dials false) n c = set_run n waiting c
move (connected k) breaks n c = set_run n (closing k) c
move (connected k) notices n c = if c.done_closed then set_run n (closing k) c else c
move (closing k) cleans n c = disconnect n k c
move waiting wakes n c = set_run n checking c
move waiting notices n c = if c.done_closed then set_run n ended c else c
move _ _ n c = c

unfoldable pub move_at : ℕ → Move → Client → Client
unfolding move
move_at n m c = elim (get_elem? c.runs n) [ none ↦ c | some p ↦ move p m n c ]

pub data Event : Type 0 where
  starts stops closes_done stops_waiting : Event
  moves : ℕ → Move → Event

unfoldable pub act : Event → Client → Client
unfolding start stop close_done finish_stop move_at
act starts c = start c
act stops c = stop c
act closes_done c = close_done c
act stops_waiting c = finish_stop c
act (moves n m) c = move_at n m c

unfoldable pub act_all : List Event → Client → Client
unfolding act
act_all [] c = c
act_all (e ∷ es) c = act_all es (act e c)
