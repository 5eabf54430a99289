-- ===== src/Examples/Rounds.antt =====
-- A round of a worker and a continuation that comes too late, at concrete inputs
-- (src/job/job_system.cpp, src/job/job.inl).
use bop.Common.{◌≡◌, refl, none, some, [], ◌∷◌, arith, Bool-cases, inl, inr}
use bop.Memory.{nullptr, Returns}
use bop.Job.{Job, new_job, callable}
use bop.JobSystem.State.{global_queue, recycling_bin, same_place}
use bop.JobSystem.Inv.{put, Contents, Inv, NotQueued}
use bop.JobSystem.Schedule.Create.{bin_rest}
use bop.JobSystem.Schedule.Late.{then_late, then_late_lost}
use bop.JobSystem.Worker.{worker_round}
use bop.JobSystem.Worker.Chain.{Chain, recycled_all}
use bop.JobSystem.Worker.Round.{IsCollected, worker_round-Chain}
use bop.Examples.{recording, jobs, pool, queued, pool-Inv, fresh}

-- What is queued once a worker has taken 3.
abbrev taken : Contents
taken = put queued (global_queue 1) []

taken-NotQueued : NotQueued taken 3
taken-NotQueued x = elim (Bool-cases (same_place (global_queue 1) x)) [
  | inl e ↦ rw e refl
  | inr ne ↦ elim (Bool-cases (same_place (recycling_bin 0) x)) [
    | inl e ↦ rw (ne, e) refl
    | inr ne' ↦ rw (ne, ne') refl
  ]
]

taken-Chain : Chain jobs taken (3 ∷ [])
taken-Chain = (
  (record new_job { work = callable 5 }, refl, refl, refl, refl),
  refl,
  taken-NotQueued,
  refl,
  tt,
)

-- Thread 2 steals 3, executes it, and recycles it.
worker_round-Chain_example :
    Returns
      (λ (t, executed).
        (executed ≡ 3 ∷ [])
        × IsCollected 2 (recycled_all 2 taken (3 ∷ [])) t
        × (t.env.called ≡ 5 ∷ []))
      (worker_round recording (λ i s. i) 4 2 pool)
worker_round-Chain_example =
    worker_round-Chain recording (λ i s. i) (λ f s. (refl, refl, refl)) 4 2 pool queued (3 ∷ [])
      pool-Inv refl
      (record {
        some_thread = omega arith;
        queues = omega arith;
        small = omega arith;
        bound = omega arith;
      })
      (omega arith) (omega arith) (omega arith) refl taken-Chain (omega arith)

-- 7 was executed by thread 0, and thread 1 attaches a continuation to it.
then_late_lost_example :
    Returns
      (λ (t, next, again).
        (again ≡ 7)
        × ((j : Job) × (t.heap 7 ≡ some j) × (j.continuation ≡ nullptr))
        × Inv t (bin_rest 0 (bin_rest 1 queued))
        × NotQueued (bin_rest 0 (bin_rest 1 queued)) next)
      (then_late 1 0 fresh 10 7 (callable 5) none pool)
then_late_lost_example =
    then_late_lost 1 0 fresh 10 pool queued pool-Inv (refl, refl) (refl, refl) refl refl 7 [] refl
      (callable 5) none
