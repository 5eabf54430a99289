-- ===== src/Examples.antt =====
-- A small pool of three threads, at which the theorems are applied (src/job/job_system.h).
pub mod Queues
pub mod Coroutine
pub mod Histories
pub mod Lifecycle
pub mod Pool
pub mod Recursive
pub mod Rounds
pub mod Tasks
pub mod Traces
pub mod Library
pub mod Main
pub mod Threads
pub mod Utilities
use bop.Common.{
  ℕ, ◌≡◌, refl, Bool, true, false, Option, none, some, List, [], ◌∷◌, ◌++◌, arith, ◌==◌,
  if◌then◌else◌, Bool-cases, mem, inl, inr,
}
use mathlib.Core.Bool.{false≢true}
use bop.Memory.{Ptr, nullptr, Heap, IsLive, Run, ok}
use bop.Queue.{IntrusiveList}
use bop.Queue.Shape.{IsQueue, empty-IsQueue}
use bop.Job.{Job, new_job, callable, job_link, Outcome, returned}
use bop.JobQueue.{JobQueue, new_queue}
use bop.JobQueue.Locked.{IsIdle}
use bop.JobSystem.State.{
  Place, global_queue, local_queue, recycling_bin, garbage_bin, same_place, System, Env, Thread,
}
use bop.JobSystem.Inv.{Contents, Inv, put, put-Apart}

-- 1 continues with 2; 4 is a part of 5, and 5 of 6, which waits for three parts; 3 and 7 are queued.
abbrev pub jobs : Heap Job
jobs a =
    if a == 1
    then some (record new_job { continuation = 2; work = callable 0 })
    else if a == 2
    then some (record new_job { work = callable 1 })
    else if a == 3
    then some (record new_job { work = callable 5 })
    else if a == 4
    then some (record new_job { parent = 5 })
    else if a == 5
    then some (record new_job { parent = 6 })
    else if a == 6
    then some (record new_job { num_children = 3 })
    else if a == 7
    then some new_job
    else none

abbrev pub one : Ptr → JobQueue
one p = record { lock = false; list = record { head = p; tail = p; num_entries = 1 } }

abbrev pub fresh : Ptr
fresh = 9

abbrev pub env : Env
env = record {
  num_threads = 3;
  num_queues = 3;
  is_shutdown = false;
  shutdown_complete = false;
  threads = λ i. record {
    thread_index = i;
    current_job = nullptr;
    tidx = 0;
    no_work_counter = 0;
    steal_from = 0;
  };
  traces = λ i. [];
  cerr = [];
  saved = none;
  called = [];
}

abbrev pub pool : System
pool = record {
  heap = jobs;
  queues = λ x.
      if same_place (global_queue 1) x
      then one 3
      else if same_place (recycling_bin 0) x
      then one 7
      else new_queue;
  env = env;
}

abbrev pub queued : Contents
queued = put (put (λ x. []) (recycling_bin 0) (7 ∷ [])) (global_queue 1) (3 ∷ [])

new_queue-IsIdle : (h : Heap Job) → IsIdle h new_queue []
new_queue-IsIdle h = record { free = refl; list = empty-IsQueue job_link h }

pub pool-Inv : Inv pool queued
pool-Inv = record {
  idle = idle';
  apart =
      put-Apart (put (λ x. []) (recycling_bin 0) (7 ∷ [])) (global_queue 1) (3 ∷ [])
        (put-Apart (λ x. []) (recycling_bin 0) (7 ∷ []) (λ x y p m. absurd (false≢true m))
          (λ y p m m'. absurd (false≢true m')))
        other;
}
  where
    idle_3 : IsIdle jobs (one 3) (3 ∷ [])
    idle_3 = record {
      free = refl;
      list = record {
        links = ((refl, refl), refl, tt);
        distinct = (refl, tt);
        head = refl;
        tail = refl;
        count = refl;
      };
    }

    idle_7 : IsIdle jobs (one 7) (7 ∷ [])
    idle_7 = record {
      free = refl;
      list = record {
        links = ((refl, refl), refl, tt);
        distinct = (refl, tt);
        head = refl;
        tail = refl;
        count = refl;
      };
    }

    idle' : (x : Place) → IsIdle jobs (pool.queues x) (queued x)
    idle' x = elim (Bool-cases (same_place (global_queue 1) x)) [
      | inl e ↦ rw e idle_3
      | inr ne ↦ elim (Bool-cases (same_place (recycling_bin 0) x)) [
        | inl e ↦ rw (ne, e) idle_7
        | inr ne' ↦ rw (ne, ne') (new_queue-IsIdle jobs)
      ]
    ]

    other :
        (y : Place) (p : Ptr)
        → mem p (3 ∷ []) ≡ true
        → mem p (put (λ x. []) (recycling_bin 0) (7 ∷ []) y) ≡ true
        → same_place (global_queue 1) y ≡ true
    other y p m m' = elim (Bool-cases (same_place (recycling_bin 0) y)) [
      | inl e ↦ ground (arith, rw e at m')
      | inr ne ↦ absurd (false≢true (rw ne at m'))
    ]

-- The same jobs, none of them queued.
abbrev pub idle_pool : System
idle_pool = record pool { queues = λ x. new_queue }

pub idle_pool-Inv : Inv idle_pool (λ x. [])
idle_pool-Inv = record {
  idle = λ x. record { free = refl; list = empty-IsQueue job_link jobs };
  apart = λ x y p m m'. cc;
}

-- Callables that only record that they have run.
abbrev pub recording : ℕ → System → Run (System × Outcome)
recording f s = ok (record s { env = record (s.env) { called = s.env.called ++ f ∷ [] } }, returned)
