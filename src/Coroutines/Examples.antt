-- ===== src/Coroutines/Examples.antt =====
-- Concrete calls at which the theorems on coroutines are applied.
use go_lib.Base.{
  String, ℕ, zero, suc, ◌≡◌, ◌≤◌, ◌⊎◌, refl, true, false, List, [], ◌∷◌, ◌++◌, none, some, arith,
}
use go_lib.Coroutines.Crash.{
  codes, File, CrashConfig, Outside, report_pending_crashes, handle, is_candidate, pid_from_name,
  parse_crash_file, renamed, cleanup_uploaded,
}
use go_lib.Coroutines.Crash.Once.{report-again}
use go_lib.Coroutines.Retry.{World, retry, IsExplained, retry-IsExplained}
use go_lib.Coroutines.Processor.{
  Processor, Event, sends, takes, dies, finishes, closes, quits_closed, joins, start, step, steps,
  IsSound,
}
use go_lib.Coroutines.Processor.Sound.{steps-start, steps-after_dies}

-- A function that fails twice.
abbrev third_time : World
third_time = record {
  f = λ n. elim n [ zero ↦ some "a" | suc zero ↦ some "b" | _ ↦ none ];
  done = λ n. false;
}

retry-IsExplained_example : IsExplained third_time 5 (retry 7 third_time (some 5))
retry-IsExplained_example = retry-IsExplained 7 5 third_time (omega arith)

abbrev three : List ℕ
three = 7 ∷ 8 ∷ 9 ∷ []

abbrev run : List Event
run =
    sends ∷ sends ∷ takes ∷ takes ∷ finishes ∷ sends ∷ closes ∷ dies ∷ takes ∷ finishes
    ∷ quits_closed ∷ joins ∷ []

steps-start_example :
    let p = steps run (start 2 three) in
    (p.panicked ≡ false)
    × (p.taken ++ (p.buffer ++ p.left) ≡ three)
    × (p.busy ≤ 2)
    × ((p.returned ≡ false)
        ⊎ (p.ctx_done ≡ true)
        ⊎ (2 ≤ p.dead)
        ⊎ ((p.taken ≡ three) × (p.busy ≡ 0)))
steps-start_example = steps-start 2 three run

-- One worker, which processes its first item.
abbrev working : Processor ℕ
working = record {
  limit = 1;
  left = 9 ∷ [];
  buffer = 8 ∷ [];
  taken = 7 ∷ [];
  ch_closed = false;
  ctx_done = false;
  idle = 0;
  busy = 1;
  quit = 0;
  dead = 0;
  returned = false;
  panicked = false;
}

working_reached : steps (sends ∷ takes ∷ sends ∷ []) (start 1 three) ≡ working
unfolding steps step start
working_reached = refl

working-IsSound : IsSound 1 three working
working-IsSound = ground arith

steps-after_dies_example :
    let jammed = steps (dies ∷ []) working in
    (steps (sends ∷ takes ∷ joins ∷ []) jammed ≡ jammed) × (jammed.returned ≡ false)
steps-after_dies_example =
    steps-after_dies 1 three (sends ∷ takes ∷ joins ∷ []) working working-IsSound refl refl refl
      refl (ground arith) (ground arith, (ground arith, (ground arith, tt)))

-- A dump of another process, an empty one, and one of this process.
abbrev dump : String → List ℕ → File
dump name content = record { name = codes name; is_dir = false; content = content; mod_time = 5 }

abbrev dumps : List File
dumps =
    dump "12-20260101_000000.crash" (codes "fatal error: deadlock")
    ∷ dump "13-20260101_000000.crash" []
    ∷ dump "7-20260101_000000.crash" (codes "panic: x")
    ∷ []

abbrev kept_week : CrashConfig
kept_week = record { max_file_bytes = some 10; current_pid = 7; keep_uploaded = 100 }

abbrev quiet : Outside
quiet = record { read_error = λ n. none; upload = λ r. none; rename = λ n. none; now = 20 }

abbrev broken : Outside
broken = record {
  read_error = λ n. none;
  upload = λ r. none;
  rename = λ n. some "denied";
  now = 900;
}

report-again_example :
    (report_pending_crashes kept_week broken (report_pending_crashes kept_week quiet dumps).0).1
    ≡ []
unfolding report_pending_crashes handle is_candidate pid_from_name parse_crash_file renamed
report-again_example = report-again kept_week quiet broken dumps refl

first_report :
    (report_pending_crashes kept_week quiet dumps).1 ≡ codes "12-20260101_000000.crash" ∷ []
unfolding report_pending_crashes handle is_candidate pid_from_name parse_crash_file renamed
    cleanup_uploaded
first_report = refl
