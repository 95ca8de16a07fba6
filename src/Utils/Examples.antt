-- ===== src/Utils/Examples.antt =====
-- Concrete values at which the theorems on the utilities are applied.
use go_lib.Base.{
  pos, negsuc, true, ◌≡◌, List, ℕ, String, ◌∷◌, [], comparable_string, List, ◌≡◌, is_some,
  get as map_get,
}
use go_lib.Utils.Slices.{Slice}
use go_lib.Utils.SingleRun.{new_manager}
use go_lib.Utils.SingleRun.Exclusion.{
  Event, enters, times_out, wakes, finishes, IsExclusive, act_all as act_all_runs,
  new_manager-IsExclusive,
}
use go_lib.Utils.SafeChan.Safety.{
  Act, begins, delivers, tries, receives, closes, IsSafe, act_all, begin, begin-IsSafe,
}
use go_lib.Utils.OrderedMap.{new_ordered_map, get, has, snapshot}
use go_lib.Utils.OrderedMap.Runs.{Edit, sets, dels, run, entries, run-Refines}

abbrev changes : List (Edit String ℕ)
changes = sets "b" 1 ∷ sets "a" 2 ∷ sets "b" 3 ∷ dels "c" ∷ dels "a" ∷ sets "a" 4 ∷ []

run-Refines_example :
    let m = run changes new_ordered_map in
    (snapshot m ≡ entries changes [])
    × (get "b" m ≡ map_get "b" (entries changes []))
    × (has "b" m ≡ is_some (map_get "b" (entries changes [])))
run-Refines_example = run-Refines changes "b"

abbrev acts : List (Act ℕ)
acts = begins ∷ delivers 3 ∷ tries true 4 ∷ tries true 5 ∷ receives ∷ closes ∷ begins ∷ closes ∷ []

begin-IsSafe_example : IsSafe 2 (act_all acts (begin 2))
begin-IsSafe_example = begin-IsSafe 2 acts

abbrev five : Slice ℕ
five = record { backing = 1 ∷ 2 ∷ 3 ∷ 4 ∷ 5 ∷ []; len = 5 }

abbrev visits : List Event
visits =
    enters [] "a" (pos 0) 1
    ∷ enters [] "a" (pos 9) 2
    ∷ enters ("a" ∷ []) "a" (pos 0) 3
    ∷ enters [] "a" (negsuc 0) 4
    ∷ times_out 0
    ∷ wakes 0 5
    ∷ finishes "a"
    ∷ wakes 0 6
    ∷ []

new_manager-IsExclusive_example : IsExclusive (act_all_runs visits new_manager)
new_manager-IsExclusive_example = new_manager-IsExclusive visits
