-- ===== src/Cmd.antt =====
-- cmd/cmd.go: a scheduler of jobs by id, over the scheduler of gocron, which is a parameter.
pub mod Jobs
mod Examples
use go_lib.Base.{
  ℕ, String, Bool, true, false, List, [], ◌∷◌, ◌++◌, Option, none, some, Map, get, put, del,
  is_some, ltb, if◌then◌else◌, comparable_string,
}
use go_lib.Coroutines.{Ending, returns, panics, Message, failed, slow_job, safe_func}

-- A `Handler`: its cron expression, its time limit, and what a run of `Do` does: how it ends, with
-- an error or none, and how long it takes.
pub record Handler : Type 0 where
  pub spec : String
  pub max_execute_time : ℕ
  pub do_job : Ending (Option String) × ℕ

-- The scheduler of gocron: a job has a number, and `live` says with which name and handler it runs.
pub record Cron : Type 1 where
  pub State : Type 0
  pub empty : State
  pub new_job : String → Handler → State → Option ℕ × State
  pub remove_job : ℕ → State → Bool × State
  pub next_run : ℕ → State → Option ℕ
  pub live : State → ℕ → Option (String × Handler)

pub data Error : Type 0 where
  add_failed no_job remove_failed : String → Error

-- The closure that `wrapTask` makes, on one run: the messages that it sends.
unfoldable pub run_task : String → Handler → List Message
unfolding safe_func
run_task id h =
    let (end, elapsed) = h.do_job in
    let slow : List Message = if ltb h.max_execute_time elapsed then slow_job id ∷ [] else [] in
    let ran : Ending (Option String) × List Message = elim end [
      | panics e ↦ (panics e, [])
      | returns none ↦ (returns none, slow)
      | returns (some e) ↦ (returns (some e), failed e ∷ slow)
    ] in
    safe_func ran

module _ (cron : Cron) where
  pub record Scheduler : Type 0 where
    pub s : cron.State
    pub entries : Map String ℕ

  unfoldable pub new_scheduler : Scheduler
  new_scheduler = record { s = cron.empty; entries = [] }

  -- `addJobLocked`.
  unfoldable pub add_job_locked : String → Handler → Scheduler → Option Error × Scheduler
  add_job_locked id h c =
      let (j, s) = cron.new_job id h c.s in
      elim j [
        | none ↦ (some (add_failed id), record c { s = s })
        | some j ↦ (none, record { s = s; entries = put id j c.entries })
      ]

  unfoldable pub add_job : String → Handler → Scheduler → Option Error × Scheduler
  unfolding add_job_locked
  add_job id h c = if is_some (get id c.entries) then (none, c) else add_job_locked id h c

  -- The removal of the job that was there before; its error is dropped.
  abbrev remove_old : Option ℕ → Scheduler → Scheduler
  remove_old none c = c
  remove_old (some j) c = record c { s = (cron.remove_job j c.s).1 }

  unfoldable pub force_add_job : String → Handler → Scheduler → Option Error × Scheduler
  unfolding add_job_locked
  force_add_job id h c =
      let old = get id c.entries in
      let (err, c') = add_job_locked id h c in
      if is_some err then (err, c') else (none, remove_old old c')

  unfoldable pub remove_job : String → Scheduler → Option Error × Scheduler
  remove_job id c = elim (get id c.entries) [
    | none ↦ (some (no_job id), c)
    | some j ↦
        let (ok, s) = cron.remove_job j c.s in
        if ok
        then (none, record { s = s; entries = del id c.entries })
        else (some (remove_failed id), record c { s = s })
  ]

  -- `ListJobs`, with the entries in the order of the association list.
  abbrev runs_of : cron.State → Map String ℕ → Map String ℕ
  runs_of s [] = []
  runs_of s ((id, j) ∷ m) = elim (cron.next_run j s) [
    | none ↦ runs_of s m
    | some t ↦ (id, t) ∷ runs_of s m
  ]

  unfoldable pub list_jobs : Scheduler → Map String ℕ
  list_jobs c = runs_of c.s c.entries
