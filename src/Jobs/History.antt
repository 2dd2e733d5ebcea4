-- ===== src/Jobs/History.antt =====
-- Histories of background jobs: the steps of pkg/gash/jobs.go in any interleaving.
use gash.Prelude.{
  ℕ, suc, ◌==◌, Bool, true, false, not, ◌||◌, List, [], ◌∷◌, none, some, Bytes, ◌≡◌, ◌≢◌, refl, sym,
  ◌∙◌, arith, if◌then◌else◌, on_option_cases, if_cases, false≢true, All, Bool-cases, inl, inr,
}
use gash.Prelude.Decimal.{itoa}
use gash.Assoc.{lookup}
use gash.Jobs.{
  VirtualJob, JobState, initialize_jobs, allocate_job, start_job, complete_job, signal_job,
}
use gash.Jobs.Kept.{
  IsFresh, Holds, lookup-put_self, start_job-IsFresh, complete_job-IsFresh, signal_job-IsFresh,
  allocate_job-IsFresh, allocate_job-Holds, start_job-Holds, complete_job-Holds, signal_job-Holds,
}

-- A step of the shell or of a job's goroutine.
pub data JobEvent : Type 0 where
  allocating : Bytes → JobEvent
  starting : Bytes → JobEvent
  completing : Bytes → ℕ → JobEvent
  signalling : Bytes → ℕ → JobEvent

unfoldable pub apply_event : JobState → JobEvent → JobState
apply_event s (allocating command) = (allocate_job command s).1
apply_event s (starting pid) = start_job pid s
apply_event s (completing pid status) = complete_job pid status s
apply_event s (signalling pid status) = (signal_job pid status s).1

unfoldable pub run_events : JobState → List JobEvent → JobState
run_events s [] = s
run_events s (e ∷ es) = run_events (apply_event s e) es

apply_event-IsFresh : (s : JobState) (e : JobEvent) → IsFresh s → IsFresh (apply_event s e)
unfolding apply_event
apply_event-IsFresh s (allocating command) h = allocate_job-IsFresh command s h
apply_event-IsFresh s (starting pid) h = start_job-IsFresh pid s h
apply_event-IsFresh s (completing pid status) h = complete_job-IsFresh pid status s h
apply_event-IsFresh s (signalling pid status) h = signal_job-IsFresh pid status s h

-- The job of that pid has ended with that status.
abbrev pub HasEnded : Bytes → ℕ → JobState → Type 0
HasEnded pid status s = Holds (λ job. (job.done ≡ true) × (job.status ≡ status)) pid s.jobs

-- The job of that pid ends, or has ended, with that status.
abbrev pub IsForced : Bytes → ℕ → JobState → Type 0
IsForced pid status s =
    Holds (λ job. (job.forced_status ≡ status) × (job.done ≡ true → job.status ≡ status)) pid s.jobs

ended_twice : (crashed done : Bool) → crashed || done ≡ false → done ≡ true → ⊥
ended_twice crashed done h k = ground (arith, h, k)

abbrev IsCrashed : JobState → Type 0
IsCrashed s = s.crashed ≡ true

apply_event-HasEnded :
    (pid : Bytes) (status : ℕ) (s : JobState) (e : JobEvent)
    → IsFresh s
    → (apply_event s e).crashed ≡ false
    → HasEnded pid status s
    → HasEnded pid status (apply_event s e)
unfolding apply_event
apply_event-HasEnded pid status s (allocating command) fresh alive h =
    allocate_job-Holds _ pid command s fresh h
apply_event-HasEnded pid status s (starting k) fresh alive h =
    start_job-Holds _ pid k s (λ job p. p) h
apply_event-HasEnded pid status s (completing k st) fresh alive h =
    complete_job-Holds _ pid k st s
      (λ job again p. absurd (ended_twice s.crashed job.done (again ∙ alive) p.0)) h
apply_event-HasEnded pid status s (signalling k st) fresh alive h =
    signal_job-Holds _ pid k st s (λ job running same p. absurd (false≢true (sym running ∙ p.0))) h

-- A step that sends no signal to that job.
abbrev pub IsElsewhere : Bytes → JobEvent → Type 0
IsElsewhere pid (signalling k st) = k ≢ pid
IsElsewhere pid _ = Unit

apply_event-IsForced :
    (pid : Bytes) (st : ℕ) (s : JobState) (e : JobEvent)
    → IsFresh s
    → IsElsewhere pid e
    → IsForced pid (suc st) s
    → IsForced pid (suc st) (apply_event s e)
unfolding apply_event
apply_event-IsForced pid st s (allocating command) fresh other h =
    allocate_job-Holds _ pid command s fresh h
apply_event-IsForced pid st s (starting k) fresh other h = start_job-Holds _ pid k s (λ job p. p) h
apply_event-IsForced pid st s (completing k status) fresh other h =
    complete_job-Holds _ pid k status s (λ job _ p. (p.0, λ _. forced job p.0)) h
  where
    forced :
        (job : VirtualJob)
        → job.forced_status ≡ suc st
        → (if not (job.forced_status == 0) then job.forced_status else status) ≡ suc st
    forced job e = ground (arith, e)
apply_event-IsForced pid st s (signalling k status) fresh other h =
    signal_job-Holds _ pid k status s (λ job running same p. absurd (other same)) h

apply_event-crashed :
    (s : JobState) (e : JobEvent) → s.crashed ≡ true → (apply_event s e).crashed ≡ true
unfolding apply_event allocate_job start_job complete_job signal_job
apply_event-crashed s (allocating command) h = h
apply_event-crashed s (starting pid) h =
    on_option_cases IsCrashed (lookup pid s.jobs) s _ (λ _. h) (λ _ _. h)
apply_event-crashed s (completing pid status) h =
    on_option_cases IsCrashed (lookup pid s.jobs) s _ (λ _. h) (λ job _. rw h refl)
apply_event-crashed s (signalling pid status) h =
    on_option_cases (λ (r : Bool × JobState). IsCrashed r.1) (lookup pid s.jobs) (false, s) _
      (λ _. h)
      λ job _.
        if_cases (λ (r : Bool × JobState). IsCrashed r.1) job.done (false, s) _ (λ _. h) (λ _. h)

run_events-crashed :
    (es : List JobEvent) (s : JobState) → s.crashed ≡ true → (run_events s es).crashed ≡ true
unfolding run_events
run_events-crashed [] s h = h
run_events-crashed (e ∷ es) s h =
    run_events-crashed es (apply_event s e) (apply_event-crashed s e h)

run_events-alive :
    (es : List JobEvent) (s : JobState) → (run_events s es).crashed ≡ false → s.crashed ≡ false
run_events-alive es s h = elim (Bool-cases s.crashed) [
  | inl c ↦ absurd (false≢true (sym h ∙ run_events-crashed es s c))
  | inr alive ↦ alive
]

-- Once a job has ended, no step changes its status as long as no channel is closed twice, which
-- ends the program: not a signal, not the end of another job, not a job that is allocated later.
pub run_events-HasEnded :
    (pid : Bytes) (status : ℕ) (es : List JobEvent) (s : JobState)
    → IsFresh s
    → (run_events s es).crashed ≡ false
    → HasEnded pid status s
    → HasEnded pid status (run_events s es)
unfolding run_events
run_events-HasEnded pid status [] s fresh alive h = h
run_events-HasEnded pid status (e ∷ es) s fresh alive h =
    run_events-HasEnded pid status es (apply_event s e) (apply_event-IsFresh s e fresh) alive
      (apply_event-HasEnded pid status s e fresh (run_events-alive es (apply_event s e) alive) h)

run_events-IsForced :
    (pid : Bytes) (st : ℕ) (es : List JobEvent) (s : JobState)
    → IsFresh s
    → All (IsElsewhere pid) es
    → IsForced pid (suc st) s
    → IsForced pid (suc st) (run_events s es)
unfolding run_events
run_events-IsForced pid st [] s fresh a h = h
run_events-IsForced pid st (e ∷ es) s fresh a h =
    run_events-IsForced pid st es (apply_event s e) (apply_event-IsFresh s e fresh) a.1
      (apply_event-IsForced pid st s e fresh a.0 h)

-- A signal that is accepted is one that found its job, and the job had not ended.
signal_job-IsForced :
    (pid : Bytes) (status : ℕ) (s : JobState)
    → (signal_job pid status s).0 ≡ true
    → IsForced pid status (signal_job pid status s).1
unfolding signal_job
signal_job-IsForced pid status s =
    on_option_cases (λ (r : Bool × JobState). r.0 ≡ true → IsForced pid status r.1)
      (lookup pid s.jobs) (false, s) _ (λ _ c. absurd (false≢true c))
      λ job e.
        if_cases (λ (r : Bool × JobState). r.0 ≡ true → IsForced pid status r.1) job.done (false, s)
          _ (λ _ c. absurd (false≢true c))
          λ running _.
            (_, lookup-put_self pid _ s.jobs, (refl, λ c. absurd (false≢true (sym running ∙ c))))

-- A signal that is accepted decides the status of the job: whatever the steps that follow, as
-- long as none of them sends it another signal, if the job has ended its status is the signal's,
-- and not what the job's goroutine returned.
pub run_events-signal :
    (pid : Bytes) (st : ℕ) (s : JobState) (es : List JobEvent)
    → IsFresh s
    → (signal_job pid (suc st) s).0 ≡ true
    → All (IsElsewhere pid) es
    → let s' = run_events (signal_job pid (suc st) s).1 es in
      (job : VirtualJob) × (lookup pid s'.jobs ≡ some job) × (job.done ≡ true → job.status ≡ suc st)
run_events-signal pid st s es fresh accepted elsewhere =
    let h =
      run_events-IsForced pid st es (signal_job pid (suc st) s).1
        (signal_job-IsFresh pid (suc st) s fresh) elsewhere
        (signal_job-IsForced pid (suc st) s accepted) in
    (h.0, h.1, h.2.1)

pub run_events-IsFresh : (es : List JobEvent) (s : JobState) → IsFresh s → IsFresh (run_events s es)
unfolding run_events
run_events-IsFresh [] s h = h
run_events-IsFresh (e ∷ es) s h =
    run_events-IsFresh es (apply_event s e) (apply_event-IsFresh s e h)

pub initialize_jobs-IsFresh : IsFresh initialize_jobs
unfolding initialize_jobs lookup
initialize_jobs-IsFresh n le = refl

-- After any steps from the start, the pid given to a new job is not the pid of another, and a
-- signal finds the new job at once.
pub allocate_job-signal_job :
    (es : List JobEvent) (command : Bytes) (status : ℕ)
    → let s = run_events initialize_jobs es in
      let r = allocate_job command s in
      (lookup r.0.pid s.jobs ≡ none) × ((signal_job r.0.pid status r.1).0 ≡ true)
unfolding allocate_job signal_job
allocate_job-signal_job es command status =
    let s = run_events initialize_jobs es in
    (
      run_events-IsFresh es initialize_jobs initialize_jobs-IsFresh s.next_pid (omega arith),
      rw (lookup-put_self (itoa s.next_pid) (allocate_job command s).0 s.jobs) refl,
    )
