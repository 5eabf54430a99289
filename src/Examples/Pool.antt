-- ===== src/Examples/Pool.antt =====
-- The theorems on the pool, at concrete inputs (src/job/job_system.cpp).
use bop.Common.{
  ◌≡◌, refl, false, none, some, [], ◌∷◌, arith, length, dec32, inl, inr, Bool-cases, mem,
}
use bop.Memory.{Ptr, nullptr, Returns}
use bop.Job.{Job, new_job, callable}
use bop.JobSystem.State.{global_queue, local_queue, recycling_bin, same_place}
use bop.JobSystem.Inv.{put, Contents, Inv, NotQueued}
use bop.JobSystem.Schedule.{schedule, create_job, then_job}
use bop.JobSystem.Schedule.Create.{IsNew, IsFor, Created, create_job-Created, bin_rest}
use bop.JobSystem.Schedule.Continue.{then_job-Chained}
use bop.JobSystem.Schedule.Enqueue.{schedule_misplaced, Fits, Scheduled, schedule-Scheduled}
use bop.JobSystem.Complete.{job_completed, deallocate_job_queue}
use bop.JobSystem.Complete.Climb.{job_completed-Completed}
use bop.JobSystem.Complete.Family.{Completed, Climb}
use bop.JobSystem.Complete.Deallocate.{Deallocated, deallocate_job_queue-Deallocated}
use bop.JobSystem.Worker.{steal, pick_job, execute_all}
use bop.JobSystem.Worker.Steal.{Stolen, steal-Stolen, steal-steal_rounds}
use bop.JobSystem.Worker.Pick.{Picked, pick_job-Picked}
use bop.JobSystem.Worker.Chain.{Chain, recycled_all, execute_all-Chain}
use bop.JobSystem.Twice.{recycle_twice, recycle_twice_aliases}
use bop.Examples.{recording, jobs, pool, env, queued, pool-Inv, fresh, idle_pool, idle_pool-Inv}

-- A job other than 3 and 7 is in no queue.
out : (p : Ptr) → mem p (3 ∷ []) ≡ false → mem p (7 ∷ []) ≡ false → NotQueued queued p
out p a b x = elim (Bool-cases (same_place (global_queue 1) x)) [
  | inl e ↦ rw e a
  | inr ne ↦ elim (Bool-cases (same_place (recycling_bin 0) x)) [
    | inl e ↦ rw (ne, e) b
    | inr ne' ↦ rw (ne, ne')
  ]
]

pool-Fits : Fits 0 env
pool-Fits = record {
  some_thread = omega arith;
  threads = omega arith;
  queues = omega arith;
  index = omega arith;
  tidx = omega arith;
}

schedule-Scheduled_example :
    Returns
      (Scheduled 0 fresh (callable 5) 6 none pool queued)
      (schedule 0 fresh (callable 5) 6 none pool)
schedule-Scheduled_example =
    schedule-Scheduled 0 fresh pool queued pool-Inv pool-Fits (refl, refl) (callable 5) 6 none

schedule_misplaced_example :
    Returns
      (λ (t, p).
        (c' : Contents) × Inv t c' × (c' (local_queue 0) ≡ p ∷ []) × (c' (local_queue 2) ≡ []))
      (schedule 0 fresh (callable 5) nullptr (some 2) pool)
schedule_misplaced_example =
    schedule_misplaced 0 fresh pool queued pool-Inv pool-Fits (refl, refl) (callable 5) nullptr 2
      (omega arith) (λ e. omega (arith, e))

create_job-Created_example :
    Returns (λ r. (j : Job) × IsNew j × Created 0 fresh pool queued j r) (create_job 0 fresh pool)
create_job-Created_example = create_job-Created 0 fresh pool queued pool-Inv (refl, refl)

then_job-Chained_example :
    Returns
      (λ (t, next).
        Inv t (bin_rest 0 queued)
        × NotQueued (bin_rest 0 queued) next
        × (t.heap 2 ≡ some (record new_job { continuation = next; work = callable 1 }))
        × ((n : Job) × (t.heap next ≡ some n) × IsFor (callable 8) nullptr none n))
      (then_job 0 fresh 2 (callable 8) none pool)
then_job-Chained_example =
    then_job-Chained 0 fresh pool queued pool-Inv (refl, refl) 2
      (record new_job { work = callable 1 }) (callable 8) none refl refl refl

-- 4 completes, and with it 5; 6 waits for two more parts.
family-Climb : Climb jobs queued 4 (5 ∷ 6 ∷ [])
family-Climb = (
  record new_job { parent = 5 },
  refl,
  refl,
  refl,
  refl,
  refl,
  out 4 refl refl,
  refl,
  (
    record new_job { parent = 6 },
    refl,
    refl,
    refl,
    refl,
    refl,
    out 5 refl refl,
    refl,
    (record new_job { num_children = 3 }, refl, refl, inl refl),
  ),
)

job_completed-Completed_example :
    Returns (Completed 0 pool queued 4 (5 ∷ 6 ∷ [])) (job_completed 3 0 4 pool)
job_completed-Completed_example =
    job_completed-Completed 0 3 pool queued 4 (5 ∷ 6 ∷ []) pool-Inv (omega arith) family-Climb
      (omega arith)

deallocate_job_queue-Deallocated_example :
    Returns
      (Deallocated pool queued (global_queue 1))
      (deallocate_job_queue 2 (global_queue 1) pool)
deallocate_job_queue-Deallocated_example =
    deallocate_job_queue-Deallocated (global_queue 1) 2 pool queued pool-Inv refl (omega arith)

-- Thread 0 finds the job of thread 1 in its first round.
steal-Stolen_example : Returns (Stolen pool queued (1 ∷ [])) (steal 2 2 0 nullptr pool)
steal-Stolen_example =
    steal-Stolen 3 2 1 2 0 pool queued pool-Inv refl (omega arith) (omega arith) (omega arith)
      (omega arith) (omega arith) (omega arith)

steal-steal_rounds_example :
    Returns (λ (t, job, from', asked). length asked ≡ 1) (steal 2 (dec32 3) 0 nullptr idle_pool)
steal-steal_rounds_example =
    steal-steal_rounds 2 0 idle_pool (λ x. []) idle_pool-Inv (omega arith) (omega arith)
      (omega arith) (omega arith) (λ i. refl) (omega arith)

-- Thread 1 executes 1 and its continuation 2.
family-Chain : Chain jobs queued (1 ∷ 2 ∷ [])
family-Chain = (
  (record new_job { continuation = 2; work = callable 0 }, refl, refl, refl, refl),
  refl,
  out 1 refl refl,
  refl,
  ((record new_job { work = callable 1 }, refl, refl, refl, refl), refl, out 2 refl refl, refl, tt),
)

execute_all-Chain_example :
    Returns
      (λ (t, run).
        (run ≡ 1 ∷ 2 ∷ [])
        × Inv t (recycled_all 1 queued (1 ∷ 2 ∷ []))
        × (t.env.called ≡ 0 ∷ 1 ∷ []))
      (execute_all recording (λ i s. i) 3 1 1 pool)
execute_all-Chain_example =
    execute_all-Chain recording (λ i s. i) (λ f s. (refl, refl, refl)) 1 3 pool queued (1 ∷ 2 ∷ [])
      pool-Inv (omega arith) family-Chain (omega arith)

recycle_twice_aliases_example : Returns (λ r. r ≡ (4, 4)) (recycle_twice 1 4 8 9 pool)
recycle_twice_aliases_example =
    recycle_twice_aliases 1 4 8 9 pool queued pool-Inv refl (refl, refl) (out 4 refl refl)

-- The queues of thread 2 are empty, and it steals from thread 1.
pick_job-Picked_example :
    Returns (Picked 2 pool 3 (put queued (global_queue 1) [])) (pick_job 2 2 pool)
pick_job-Picked_example =
    pick_job-Picked 2 2 pool queued pool-Inv refl
      (record {
        some_thread = omega arith;
        queues = omega arith;
        small = omega arith;
        bound = omega arith;
      })
      (omega arith) (omega arith) (omega arith)
