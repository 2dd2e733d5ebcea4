-- ===== src/Jobs/Kept.antt =====
-- What single steps of pkg/gash/jobs.go keep of the jobs.
use gash.Prelude.{
  ℕ, ◌≤◌, ◌==◌, Bool, true, false, not, ◌||◌, none, some, Bytes, beq, beq_iff, ◌≡◌, refl, sym, ap,
  ◌∙◌, subst, arith, if◌then◌else◌, inl, inr, on_option, on_option_cases, if_cases, Bool-cases,
}
use gash.Prelude.Decimal.{itoa, itoa-injective}
use gash.Assoc.{Assoc, lookup, put, lookup-put}
use gash.Jobs.{VirtualJob, JobState, allocate_job, start_job, complete_job, signal_job}

-- The pids still to be given are not in use.
abbrev pub IsFresh : JobState → Type 0
IsFresh s = (n : ℕ) → s.next_pid ≤ n → lookup (itoa n) s.jobs ≡ none

abbrev pub Holds : (VirtualJob → Type 0) → Bytes → Assoc VirtualJob → Type 0
Holds P pid m = (job : VirtualJob) × (lookup pid m ≡ some job) × P job

put-Holds :
    (P : VirtualJob → Type 0) (pid k : Bytes) (j : VirtualJob) (m : Assoc VirtualJob)
    → (k ≡ pid → P j)
    → Holds P pid m
    → Holds P pid (put k j m)
put-Holds P pid k j m p h = elim (Bool-cases (beq k pid)) [
  | inl e ↦ (j, lookup-put k pid j m ∙ rw e refl, p ((beq_iff k pid).0 e))
  | inr e ↦ (h.0, lookup-put k pid j m ∙ rw e h.1, h.2)
]

pub lookup-put_self :
    (k : Bytes) (j : VirtualJob) (m : Assoc VirtualJob) → lookup k (put k j m) ≡ some j
lookup-put_self k j m = lookup-put k k j m ∙ rw ((beq_iff k k).1 refl) refl

put-fresh :
    (pid k : Bytes) (j job : VirtualJob) (m : Assoc VirtualJob)
    → lookup k m ≡ some job
    → lookup pid m ≡ none
    → lookup pid (put k j m) ≡ none
put-fresh pid k j job m e h = elim (Bool-cases (beq k pid)) [
  | inl t ↦ absurd (some_none (sym e ∙ ap (λ i. lookup i m) ((beq_iff k pid).0 t) ∙ h))
  | inr f ↦ lookup-put k pid j m ∙ rw f h
]
  where
    some_none : some job ≡ none → ⊥
    some_none c = cc

pub start_job-IsFresh : (pid : Bytes) (s : JobState) → IsFresh s → IsFresh (start_job pid s)
unfolding start_job
start_job-IsFresh pid s h =
    on_option_cases IsFresh (lookup pid s.jobs) s _ (λ _. h)
      λ job e n le. put-fresh (itoa n) pid _ job s.jobs e (h n le)

pub complete_job-IsFresh :
    (pid : Bytes) (status : ℕ) (s : JobState) → IsFresh s → IsFresh (complete_job pid status s)
unfolding complete_job
complete_job-IsFresh pid status s h =
    on_option_cases IsFresh (lookup pid s.jobs) s _ (λ _. h)
      λ job e n le. put-fresh (itoa n) pid _ job s.jobs e (h n le)

pub signal_job-IsFresh :
    (pid : Bytes) (status : ℕ) (s : JobState) → IsFresh s → IsFresh (signal_job pid status s).1
unfolding signal_job
signal_job-IsFresh pid status s h =
    on_option_cases (λ (r : Bool × JobState). IsFresh r.1) (lookup pid s.jobs) (false, s) _ (λ _. h)
      λ job e.
        if_cases (λ (r : Bool × JobState). IsFresh r.1) job.done (false, s) _ (λ _. h)
          λ _ n le. put-fresh (itoa n) pid _ job s.jobs e (h n le)

pub allocate_job-IsFresh :
    (command : Bytes) (s : JobState) → IsFresh s → IsFresh (allocate_job command s).1
unfolding allocate_job
allocate_job-IsFresh command s h n le = elim (Bool-cases (beq (itoa s.next_pid) (itoa n))) [
  | inl t ↦
      let same = itoa-injective s.next_pid n ((beq_iff (itoa s.next_pid) (itoa n)).0 t) in
      absurd (omega (arith, same, le))
  | inr f ↦ lookup-put (itoa s.next_pid) (itoa n) _ s.jobs ∙ rw f (h n (omega arith))
]

pub allocate_job-Holds :
    (P : VirtualJob → Type 0) (pid command : Bytes) (s : JobState)
    → IsFresh s
    → Holds P pid s.jobs
    → Holds P pid (allocate_job command s).1.jobs
unfolding allocate_job
allocate_job-Holds P pid command s fresh h =
    put-Holds P pid (itoa s.next_pid) _ s.jobs (λ same. absurd (taken same)) h
  where
    some_none : some h.0 ≡ none → ⊥
    some_none c = cc

    taken : itoa s.next_pid ≡ pid → ⊥
    taken same =
        some_none (sym h.1 ∙ ap (λ i. lookup i s.jobs) (sym same) ∙ fresh s.next_pid (omega arith))

at_key :
    (P : VirtualJob → Type 0) (pid k : Bytes) (m : Assoc VirtualJob) (job : VirtualJob)
    → Holds P pid m
    → k ≡ pid
    → lookup k m ≡ some job
    → P job
at_key P pid k m job h same e =
    subst (λ o. on_option o Unit P) (sym h.1 ∙ ap (λ i. lookup i m) (sym same) ∙ e) h.2

pub start_job-Holds :
    (P : VirtualJob → Type 0) (pid k : Bytes) (s : JobState)
    → ((job : VirtualJob) → P job → P (record job { started = true }))
    → Holds P pid s.jobs
    → Holds P pid (start_job k s).jobs
unfolding start_job
start_job-Holds P pid k s keep h =
    on_option_cases (λ s'. Holds P pid s'.jobs) (lookup k s.jobs) s _ (λ _. h)
      λ job e. put-Holds P pid k _ s.jobs (λ same. keep job (at_key P pid k s.jobs job h same e)) h

pub complete_job-Holds :
    (P : VirtualJob → Type 0) (pid k : Bytes) (status : ℕ) (s : JobState)
    → ((job : VirtualJob)
        → s.crashed || job.done ≡ (complete_job k status s).crashed
        → P job
        → P (record job {
          status = (if not (job.forced_status == 0) then job.forced_status else status);
          done = true;
        }))
    → Holds P pid s.jobs
    → Holds P pid (complete_job k status s).jobs
unfolding complete_job
complete_job-Holds P pid k status s keep h =
    on_option_cases (λ s'. Holds P pid s'.jobs) (lookup k s.jobs) s _ (λ _. h)
      λ job e.
        put-Holds P pid k _ s.jobs
          (λ same. keep job (rw e refl) (at_key P pid k s.jobs job h same e)) h

pub signal_job-Holds :
    (P : VirtualJob → Type 0) (pid k : Bytes) (status : ℕ) (s : JobState)
    → ((job : VirtualJob)
        → job.done ≡ false
        → k ≡ pid
        → P job
        → P (record job { forced_status = status; cancelled = job.cancelled || job.started }))
    → Holds P pid s.jobs
    → Holds P pid (signal_job k status s).1.jobs
unfolding signal_job
signal_job-Holds P pid k status s keep h =
    on_option_cases (λ (r : Bool × JobState). Holds P pid r.1.jobs) (lookup k s.jobs) (false, s) _
      (λ _. h)
      λ job e.
        if_cases (λ (r : Bool × JobState). Holds P pid r.1.jobs) job.done (false, s) _ (λ _. h)
          λ running.
            put-Holds P pid k _ s.jobs
              (λ same. keep job running same (at_key P pid k s.jobs job h same e)) h
