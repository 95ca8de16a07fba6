-- ===== src/WebSocket/Examples.antt =====
-- A client that connects, loses its connection, connects again and is stopped.
use go_lib.Base.{◌≡◌, refl, true, List, [], ◌∷◌}
use go_lib.WebSocket.{
  Client, new_client, Event, starts, stops, closes_done, stops_waiting, moves, checks, breaks,
  notices, cleans, wakes, dials, act_all,
}
use go_lib.WebSocket.Life.{IsClean, new_client-IsClean}
use go_lib.WebSocket.Stopped.{act_all-stopped}

abbrev life : List Event
life =
    starts
    ∷ moves 0 checks
    ∷ moves 0 (dials true)
    ∷ moves 0 breaks
    ∷ moves 0 cleans
    ∷ moves 0 wakes
    ∷ moves 0 checks
    ∷ moves 0 (dials true)
    ∷ stops
    ∷ closes_done
    ∷ moves 0 notices
    ∷ moves 0 cleans
    ∷ stops_waiting
    ∷ []

new_client-IsClean_example : IsClean (act_all life new_client)
new_client-IsClean_example = new_client-IsClean life

abbrev stopped : Client
stopped = act_all life new_client

abbrev again : List Event
again = starts ∷ moves 1 checks ∷ moves 1 (dials true) ∷ []

act_all-stopped_example :
    ((act_all again stopped).opened ≡ stopped.opened)
    × ((act_all again stopped).connects ≡ stopped.connects)
unfolding act_all new_client
act_all-stopped_example = act_all-stopped again stopped refl refl

-- The client says that it runs, and it has no run.
runs_nothing : (act_all again stopped).is_running ≡ true
unfolding act_all new_client
runs_nothing = refl
