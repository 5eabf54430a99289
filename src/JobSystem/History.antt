-- ===== src/JobSystem/History.antt =====
-- Histories of the pool (src/job/job_system.cpp, job_system.inl, job.inl): its threads schedule jobs,
-- attach continuations, and work, in any order. A worker holds its current job between the search for
-- it and its execution, and other threads may move then. What a callable schedules is a step of its
-- thread before the step that executes it.
pub mod Ledger
pub mod Sound
pub mod Places
pub mod Account
pub mod Chosen
pub mod Adds
pub mod Works
pub mod Starts
pub mod Reached
pub mod Drained
use bop.Common.{ℕ, ◌<◌, ◌≡◌, Bool, true, false, Option, List, [], ◌∷◌, ◌++◌, ◌==◌, mem}
use bop.Memory.{Ptr, nullptr, Heap, Run, ok, fault, stuck, aborted}
use bop.Job.{Job, Work, Outcome}
use bop.JobSystem.State.{System}
use bop.JobSystem.Start.{job_system, new_process, worker_start}
use bop.JobSystem.Schedule.{schedule, then_job}
use bop.JobSystem.Schedule.Create.{IsFresh}
use bop.JobSystem.Worker.{pick_job, execute, collect}
use bop.JobSystem.Worker.Execute.{runs}
use bop.JobSystem.Worker.Steal.{steal_rounds}
use bop.JobSystem.History.Ledger.Erase.{erase}
use bop.JobSystem.History.Sound.{next_of}

-- The pool, and what its clients know of it: the callables that they have passed to schedule and to then,
-- the jobs that are still to be executed, and whether one of the steps did not return.
pub record Pool : Type 0 where
  pub system : System
  pub asked : List ℕ
  pub pending : List Ptr
  pub failed : Bool

abbrev pub added : Work → System × Ptr → Pool → Pool
added fn (s, job) p = record p {
  system = s;
  asked = p.asked ++ runs fn;
  pending = p.pending ++ job ∷ [];
}

abbrev pub done : Ptr → System × Ptr → Pool → Pool
done job (s, next) p = record p { system = s; pending = erase job p.pending }

-- What the first construction of a JobSystem makes, on a heap that holds no job of the pool.
abbrev pub new_pool : ℕ → ℕ → Option ℕ → Ptr → Heap Job → Pool
new_pool hardware_concurrency now num_threads memory_resource h = record {
  system = (job_system hardware_concurrency now num_threads memory_resource (new_process h)).system;
  asked = [];
  pending = [];
  failed = false;
}

-- A step that returns leads on, and one that does not is a failure.
abbrev pub after : {A : Type 0} → Run A → (A → Pool → Pool) → Pool → Pool
after (ok a) go p = go a p
after fault go p = record p { failed = true }
after stuck go p = record p { failed = true }
after aborted go p = record p { failed = true }

abbrev pub current_job : ℕ → Pool → Ptr
current_job i p = (p.system.threads i).current_job

module _ (body : ℕ → System → Run (System × Outcome)) (clock : ℕ → System → ℕ) where
  -- A worker starts. The memory resource offers an unused address. A continuation is attached to a pending job that has
  -- none. A worker that has no job looks for one, and one that has a job executes it.
  pub data Step : Pool → Pool → Type 0 where
    starts :
        (me : ℕ) (p : Pool)
        → me < p.system.num_threads
        → Step p (record p { system = worker_start me p.system })
    schedules :
        (me : ℕ) (fresh : Ptr) (fn : Work) (thread_index : Option ℕ) (p : Pool)
        → IsFresh p.system fresh
        → Step p (after (schedule me fresh fn nullptr thread_index p.system) (added fn) p)
    thens :
        (me : ℕ) (fresh job : Ptr) (fn : Work) (thread_index : Option ℕ) (p : Pool)
        → IsFresh p.system fresh
        → mem job p.pending ≡ true
        → next_of (p.system.heap job) ≡ nullptr
        → Step p (after (then_job me fresh job fn thread_index p.system) (added fn) p)
    picks :
        (fuel me : ℕ) (p : Pool)
        → (p.system.threads me).thread_index ≡ me
        → current_job me p ≡ nullptr
        → steal_rounds p.system.num_threads < fuel
        → Step p (after (pick_job fuel me p.system) (λ r q. record q { system = r.0 }) p)
    executes :
        (fuel me : ℕ) (p : Pool)
        → (current_job me p == nullptr) ≡ false
        → 0 < fuel
        → Step p (
            after
              (execute body clock fuel me (current_job me p) p.system)
              (done (current_job me p))
              p)
    collects :
        (me : ℕ) (p : Pool)
        → Step p (after (collect me p.system) (λ s q. record q { system = s }) p)

  pub data Reachable (p : Pool) : Pool → Type 0 where
    start : Reachable p p
    later : {q r : Pool} → Reachable p q → Step q r → Reachable p r
