-- ===== src/Examples/Queues.antt =====
-- The theorems on the queues and on single jobs, at concrete inputs (src/job/job_queue.cpp,
-- src/job/job.cpp).
use bop.Common.{ℕ, ◌+◌, refl, List, [], ◌∷◌}
use bop.Memory.{nullptr, Run, ok, Returns}
use bop.Queue.{empty}
use bop.Queue.Shape.{empty-IsQueue}
use bop.Queue.Fifo
use bop.Queue.Fifo.{
  Call, pushes, pops, clears, asks_size, Answer, done, popped, counted, spec_run, AdmitsAll,
  Refines,
}
use bop.Job.{Outcome, threw, job_link}
use bop.JobQueue.{new_queue}
use bop.JobQueue.Locked
use bop.JobQueue.Locked.{IsIdle, LockedRefines}
use bop.Examples.{jobs}

-- A queue that is filled beyond one job, emptied below, and cleared.
abbrev history : List Call
history =
    pushes 1
    ∷ pushes 2
    ∷ asks_size
    ∷ pops
    ∷ pushes 3
    ∷ pops
    ∷ pushes 1
    ∷ clears
    ∷ pops
    ∷ pushes 2
    ∷ []

history-AdmitsAll : AdmitsAll jobs [] history
history-AdmitsAll = (
  ((refl, refl), refl),
  (
    ((refl, refl), refl),
    (
      tt,
      (
        tt,
        (
          ((refl, refl), refl),
          (tt, (((refl, refl), refl), (tt, (tt, (((refl, refl), refl), tt))))),
        ),
      ),
    ),
  ),
)

new_queue-IsIdle : IsIdle jobs new_queue []
new_queue-IsIdle = record { free = refl; list = empty-IsQueue job_link jobs }

run-spec_run_locked_example :
    Returns
      (LockedRefines jobs (2 ∷ []) (
        done
        ∷ done
        ∷ counted 2
        ∷ popped 1
        ∷ done
        ∷ popped 2
        ∷ done
        ∷ counted 2
        ∷ popped nullptr
        ∷ done
        ∷ []))
      (Locked.run (jobs, new_queue) history)
run-spec_run_locked_example =
    Locked.run-spec_run_locked jobs new_queue [] history new_queue-IsIdle history-AdmitsAll

run-spec_run_example :
    Returns
      (Refines job_link jobs (2 ∷ []) (
        done
        ∷ done
        ∷ counted 2
        ∷ popped 1
        ∷ done
        ∷ popped 2
        ∷ done
        ∷ counted 2
        ∷ popped nullptr
        ∷ done
        ∷ []))
      (Fifo.run job_link (jobs, empty) history)
run-spec_run_example =
    Fifo.run-spec_run job_link jobs empty [] history (empty-IsQueue job_link jobs) history-AdmitsAll

-- Callable 0 throws after it has counted, any other returns.
abbrev counts : ℕ → ℕ → Run (ℕ × Outcome)
counts f n = ok (n + 1, threw 7)
