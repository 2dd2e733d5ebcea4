-- ===== src/Jobs/Samples.antt =====
-- Concrete runs of background jobs.
use gash.Prelude.{◌≡◌, refl, true, List, [], ◌∷◌, some, Bytes, codes, beq, has_prefix, trim_prefix}
use gash.Prelude.Decimal.{itoa, write_digits}
use gash.Assoc.{lookup, put}
use gash.Jobs.{
  JobState, VirtualJob, initialize_jobs, allocate_job, start_job, complete_job, signal_job,
  sort_jobs, find_job, select_each, selected_jobs, wait_all, run_wait_job, only_pids, run_jobs,
  pid_line, listed, waited, waiting,
}
use gash.Jobs.Kept.{IsFresh}
use gash.Jobs.History.{
  JobEvent, allocating, starting, completing, signalling, apply_event, run_events, HasEnded,
  run_events-HasEnded, run_events-signal, initialize_jobs-IsFresh, run_events-IsFresh,
}

computing : Unit {0}
unfolding itoa write_digits lookup put beq has_prefix trim_prefix initialize_jobs allocate_job
    start_job complete_job signal_job sort_jobs find_job select_each selected_jobs wait_all
    run_wait_job only_pids run_jobs apply_event run_events
computing = tt

abbrev first_pid : Bytes
first_pid = codes "2001"

-- Two jobs, of which the first was signalled.
abbrev two_jobs : List JobEvent
two_jobs =
    allocating (codes "sleep 1")
    ∷ starting first_pid
    ∷ allocating (codes "true")
    ∷ starting (codes "2002")
    ∷ []

abbrev two_started : JobState
two_started = run_events initialize_jobs two_jobs

abbrev ends : List JobEvent
ends = completing (codes "2002") 0 ∷ completing first_pid 1 ∷ []

two_started-IsFresh : IsFresh two_started
two_started-IsFresh = run_events-IsFresh two_jobs initialize_jobs initialize_jobs-IsFresh

run_events-signal_example :
    let s' = run_events (signal_job first_pid 143 two_started).1 ends in
    (job : VirtualJob) × (lookup first_pid s'.jobs ≡ some job)
    × (job.done ≡ true → job.status ≡ 143)
unfolding computing
run_events-signal_example =
    run_events-signal first_pid 142 two_started ends two_started-IsFresh refl (tt, (tt, tt))

abbrev ended : JobState
ended = run_events two_started ends

run_events-HasEnded_example :
    HasEnded first_pid 1 (run_events ended (signalling first_pid 130 ∷ []))
unfolding computing
run_events-HasEnded_example =
    run_events-HasEnded first_pid 1 (signalling first_pid 130 ∷ []) ended
      (run_events-IsFresh ends two_started two_started-IsFresh) refl (_, refl, (refl, refl))

-- `__gash_start_job 2001 script` of a script runs the first job again.
run_twice :
    let s = run_events ended (starting first_pid ∷ completing first_pid 0 ∷ []) in
    (s.crashed ≡ true) × HasEnded first_pid 0 s
unfolding computing
run_twice = (refl, (_, refl, (refl, refl)))

jobs-p :
    run_jobs (codes "-p" ∷ []) ended ≡ listed (pid_line first_pid ∷ pid_line (codes "2002") ∷ [])
unfolding computing
jobs-p = refl

wait_first : run_wait_job (codes "%1" ∷ []) ended ≡ waited 1
unfolding computing
wait_first = refl

wait_running : run_wait_job [] two_started ≡ waiting
unfolding computing
wait_running = refl
