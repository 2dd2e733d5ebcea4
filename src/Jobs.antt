-- ===== src/Jobs.antt =====
-- pkg/gash/jobs.go: background jobs. A job is reached through its pid only, which no other job
-- has, so the pointer that the map holds is the entry itself; each body that holds the lock is one
-- step, as is the end of a job's goroutine. `crashed`: a channel that was closed was closed again,
-- which panics and ends the program.
pub mod Kept
pub mod History
mod Samples
use gash.Prelude.{
  ℕ, zero, suc, ◌+◌, ltb, ◌==◌, Bool, true, false, not, ◌||◌, List, [], ◌∷◌, ◌++◌, map, Option,
  none, some, Bytes, codes, beq, trim_prefix, is_empty, if◌then◌else◌, on_option,
}
use gash.Prelude.Decimal.{itoa}
use gash.Assoc.{Assoc, lookup, put}

-- `started`: the function that cancels the job is set; `cancelled`: it was called; `done`: the
-- channel is closed.
pub record VirtualJob : Type 0 where
  pub id : ℕ
  pub pid : Bytes
  pub command : Bytes
  pub started : Bool
  pub cancelled : Bool
  pub done : Bool
  pub status : ℕ
  pub forced_status : ℕ

pub record JobState : Type 0 where
  pub next_id : ℕ
  pub next_pid : ℕ
  pub last : Bytes
  pub jobs : Assoc VirtualJob
  pub crashed : Bool

-- initializeJobs: no job yet
unfoldable pub initialize_jobs : JobState
initialize_jobs = record { next_id = 0; next_pid = 2001; last = []; jobs = []; crashed = false }

-- allocateJob(command)
unfoldable pub allocate_job : Bytes → JobState → VirtualJob × JobState
allocate_job command s =
    let id = s.next_id + 1 in
    let pid = itoa s.next_pid in
    let job : VirtualJob = record {
      id = id;
      pid = pid;
      command = command;
      started = false;
      cancelled = false;
      done = false;
      status = 0;
      forced_status = 0;
    } in
    (
      job,
      record s { next_id = id; next_pid = s.next_pid + 1; last = pid; jobs = put pid job s.jobs },
    )

-- startJob: the cancel function is stored
unfoldable pub start_job : Bytes → JobState → JobState
start_job pid s =
    on_option (lookup pid s.jobs) s
      λ job. record s { jobs = put pid (record job { started = true }) s.jobs }

-- The end of the goroutine of startJob: run() returned `status`. A job that is run twice ends
-- twice: the status is set again before the channel is closed.
unfoldable pub complete_job : Bytes → ℕ → JobState → JobState
complete_job pid status s = on_option (lookup pid s.jobs) s λ job.
    let final = if not (job.forced_status == 0) then job.forced_status else status in
    record s {
      jobs = put pid (record job { status = final; done = true }) s.jobs;
      crashed = s.crashed || job.done;
    }

-- signalJob(pid, status)
unfoldable pub signal_job : Bytes → ℕ → JobState → Bool × JobState
signal_job pid status s =
    on_option (lookup pid s.jobs) (false, s)
      λ job. if job.done then (false, s) else (
        true,
        record s {
          jobs =
              put pid
                (record job { forced_status = status; cancelled = job.cancelled || job.started })
                s.jobs;
        },
      )

abbrev jobs_of : Assoc VirtualJob → List VirtualJob
jobs_of [] = []
jobs_of ((_, job) ∷ m) = job ∷ jobs_of m

-- sort.Slice by id; no two jobs have the same id.
unfoldable insert_job : VirtualJob → List VirtualJob → List VirtualJob
insert_job job [] = job ∷ []
insert_job job (j ∷ js) =
    let rest = insert_job job js in if ltb j.id job.id then j ∷ rest else job ∷ j ∷ js

unfoldable pub sort_jobs : List VirtualJob → List VirtualJob
unfolding insert_job
sort_jobs [] = []
sort_jobs (j ∷ js) = insert_job j (sort_jobs js)

-- The loop over the jobs for one that is requested by pid or by id.
unfoldable pub find_job : Bytes → List VirtualJob → Option VirtualJob
find_job requested [] = none
find_job requested (job ∷ jobs) =
    let rest = find_job requested jobs in
    if beq job.pid requested || beq (itoa job.id) requested then some job else rest

pub data Selection : Type 0 where
  selected : List VirtualJob → Selection
  missing : Bytes → Selection

abbrev select_more : VirtualJob → Selection → Selection
select_more job (selected jobs) = selected (job ∷ jobs)
select_more job (missing requested) = missing requested

unfoldable pub select_each : List Bytes → Assoc VirtualJob → Selection
select_each [] m = selected []
select_each (argument ∷ arguments) m =
    let requested = trim_prefix argument (codes "%") in
    let rest = select_each arguments m in
    on_option (find_job requested (jobs_of m)) (missing requested) λ job. select_more job rest

-- selectedJobs(args)
unfoldable pub selected_jobs : List Bytes → JobState → Selection
selected_jobs [] s = selected (sort_jobs (jobs_of s.jobs))
selected_jobs (a ∷ args) s = select_each (a ∷ args) s.jobs

-- `waiting`: a job among those that are waited for has not ended.
pub data WaitOutcome : Type 0 where
  no_such_job : Bytes → WaitOutcome
  waiting : WaitOutcome
  waited : ℕ → WaitOutcome

-- The loop that receives from each job's channel in turn.
unfoldable pub wait_all : ℕ → List VirtualJob → WaitOutcome
wait_all status [] = waited status
wait_all status (job ∷ jobs) = if job.done then wait_all job.status jobs else waiting

abbrev ignore_status : WaitOutcome → WaitOutcome
ignore_status (waited _) = waited 0
ignore_status o = o

-- runWaitJob(args)
unfoldable pub run_wait_job : List Bytes → JobState → WaitOutcome
run_wait_job args s = elim (selected_jobs args s) [
  | missing requested ↦ no_such_job requested
  | selected jobs ↦ let o = wait_all 0 jobs in if is_empty args then ignore_status o else o
]

-- The lines that runJobs prints for one job: its pid, or its id, state and command.
pub data JobLine : Type 0 where
  pid_line : Bytes → JobLine
  state_line : ℕ → Bool → Bytes → JobLine

pub data JobsOutcome : Type 0 where
  invalid_option : Bytes → JobsOutcome
  listed : List JobLine → JobsOutcome

unfoldable pub only_pids : Bool → List Bytes → Option Bytes × Bool
only_pids pids_only [] = (none, pids_only)
only_pids pids_only (argument ∷ args) =
    if beq argument (codes "-p") then only_pids true args else (some argument, pids_only)

-- runJobs(args)
unfoldable pub run_jobs : List Bytes → JobState → JobsOutcome
run_jobs args s =
    let (bad, pids_only) = only_pids false args in
    let line : VirtualJob → JobLine =
      λ job. if pids_only then pid_line job.pid else state_line job.id job.done job.command in
    on_option bad (listed (map line (sort_jobs (jobs_of s.jobs)))) invalid_option
