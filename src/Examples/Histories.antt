-- ===== src/Examples/Histories.antt =====
-- A history of a pool of two threads (src/job/job_system.cpp): thread 0 schedules a job and attaches a
-- continuation to it, and schedules another job while thread 1 has taken the first.
use bop.Common.{ℕ, ◌≡◌, refl, Bool, true, false, ◌==◌, if◌then◌else◌, none, [], ◌∷◌, arith}
use bop.Memory.{nullptr, Heap, load, write}
use bop.Queue
use bop.Job.{Job, callable, reset, invoke, call}
use bop.JobQueue
use bop.JobQueue.{JobQueue, new_queue, acquire}
use bop.Examples.{one, recording}
use bop.JobSystem.State.{
  System, Thread, Place, global_queue, local_queue, push_on, pop_on, push_at, pop_at,
}
use bop.JobSystem.Start.{new_thread, job_system, worker_start}
use bop.JobSystem.Schedule.{create_job, construct, schedule_work, schedule, then_job}
use bop.JobSystem.Complete.{recycle, job_completed}
use bop.JobSystem.Worker.{steal, pick_job, adopt, execute}
use bop.JobSystem.History.{
  Pool, new_pool, added, done, after, current_job, starts, schedules, thens, picks, executes,
  Reachable, start, later,
}
use bop.JobSystem.History.Ledger.{is_work}
use bop.JobSystem.History.Ledger.Erase.{occurs}
use bop.JobSystem.History.Drained.{IsDry, history-drained}
use bop.JobSystem.History.Reached.{IsKept, history-IsKept}

abbrev clock : ℕ → System → ℕ
clock i s = i

abbrev no_jobs : Heap Job
no_jobs a = none

abbrev made_pool : Pool
made_pool = new_pool 2 0 none 1 no_jobs

abbrev started : Pool
started = record made_pool { system = worker_start 1 (worker_start 0 made_pool.system) }

abbrev scheduled : Pool
scheduled =
    after (schedule 0 5 (callable 0) nullptr none started.system) (added (callable 0)) started

abbrev chained : Pool
chained = after (then_job 0 6 5 (callable 1) none scheduled.system) (added (callable 1)) scheduled

abbrev taken : Pool
taken = after (pick_job 1 1 chained.system) (λ r q. record q { system = r.0 }) chained

abbrev scheduled_again : Pool
scheduled_again =
    after (schedule 0 7 (callable 2) nullptr none taken.system) (added (callable 2)) taken

abbrev executed_first : Pool
executed_first =
    after (execute recording clock 1 1 (current_job 1 scheduled_again) scheduled_again.system)
      (done (current_job 1 scheduled_again)) scheduled_again

what_is_left :
    (executed_first.system.called ≡ 0 ∷ [])
    × (executed_first.pending ≡ 6 ∷ 7 ∷ [])
    × (current_job 1 executed_first ≡ 6)
unfolding job_system worker_start schedule construct create_job schedule_work push_at pop_at push_on
    pop_on JobQueue.push JobQueue.pop Queue.push Queue.pop acquire load write reset then_job
    pick_job steal execute job_completed recycle call invoke adopt Queue.size
what_is_left = (refl, refl, refl)

abbrev executed_both : Pool
executed_both =
    after (execute recording clock 1 1 (current_job 1 executed_first) executed_first.system)
      (done (current_job 1 executed_first)) executed_first

abbrev taken_again : Pool
taken_again =
    after (pick_job 1 0 executed_both.system) (λ r q. record q { system = r.0 }) executed_both

abbrev executed_all : Pool
executed_all =
    after (execute recording clock 1 0 (current_job 0 taken_again) taken_again.system)
      (done (current_job 0 taken_again)) taken_again

started-Reachable : Reachable recording clock made_pool started
unfolding job_system worker_start
started-Reachable =
    later (later start (starts 0 made_pool (omega arith)))
      (starts 1 (record made_pool { system = worker_start 0 made_pool.system }) (omega arith))

executed_first-Reachable : Reachable recording clock made_pool executed_first
unfolding job_system worker_start schedule construct create_job schedule_work push_at pop_at push_on
    pop_on JobQueue.push JobQueue.pop Queue.push Queue.pop acquire load write reset then_job
    pick_job steal execute job_completed recycle call invoke adopt Queue.size
executed_first-Reachable =
    later
      (later
        (later
          (later (later started-Reachable (schedules 0 5 (callable 0) none started (refl, refl)))
            (thens 0 6 5 (callable 1) none scheduled (refl, refl) refl refl))
          (picks 1 1 chained refl refl (omega arith)))
        (schedules 0 7 (callable 2) none taken (refl, refl)))
      (executes 1 1 scheduled_again refl (omega arith))

history-IsKept_example : IsKept executed_first
history-IsKept_example =
    history-IsKept recording clock 2 0 none 1 no_jobs executed_first
      (λ f s. (refl, refl, (refl, refl, refl), refl)) (omega arith) executed_first-Reachable

executed_all-Reachable : Reachable recording clock made_pool executed_all
unfolding job_system worker_start schedule construct create_job schedule_work push_at pop_at push_on
    pop_on JobQueue.push JobQueue.pop Queue.push Queue.pop acquire load write reset then_job
    pick_job steal execute job_completed recycle call invoke adopt Queue.size
executed_all-Reachable =
    later
      (later (later executed_first-Reachable (executes 1 1 executed_first refl (omega arith)))
        (picks 1 0 executed_both refl refl (omega arith)))
      (executes 1 0 taken_again refl (omega arith))

all_done : (executed_all.system.called ≡ 0 ∷ 1 ∷ 2 ∷ []) × (executed_all.pending ≡ [])
unfolding job_system worker_start schedule construct create_job schedule_work push_at pop_at push_on
    pop_on JobQueue.push JobQueue.pop Queue.push Queue.pop acquire load write reset then_job
    pick_job steal execute job_completed recycle call invoke adopt Queue.size
all_done = (refl, refl)

-- What the pushes and the pops have left of the queues.
no_local :
    (a b : Bool) → (if a then new_queue else if b then new_queue else new_queue).list.head ≡ nullptr
no_local true b = refl
no_local false true = refl
no_local false false = refl

no_global :
    (q r : JobQueue) (a b : Bool)
    → (if a
        then new_queue
        else if a
        then q
        else if b
        then new_queue
        else if b
        then r
        else new_queue).list.head
      ≡ nullptr
no_global q r true b = refl
no_global q r false true = refl
no_global q r false false = refl

no_current :
    (t0 t1 t2 t3 t4 t5 t6 t7 t8 t9 t10 t11 : Thread) (a b : Bool)
    → t0.current_job ≡ nullptr
    → t3.current_job ≡ nullptr
    → (if a
        then t0
        else if a
        then t1
        else if a
        then t2
        else if b
        then t3
        else if b
        then t4
        else if b
        then t5
        else if b
        then t6
        else if a
        then t7
        else if b
        then t8
        else if a
        then t9
        else if b
        then t10
        else if a
        then t11
        else new_thread).current_job
      ≡ nullptr
no_current t0 t1 t2 t3 t4 t5 t6 t7 t8 t9 t10 t11 true b e f = e
no_current t0 t1 t2 t3 t4 t5 t6 t7 t8 t9 t10 t11 false true e f = f
no_current t0 t1 t2 t3 t4 t5 t6 t7 t8 t9 t10 t11 false false e f = refl

executed_all-IsDry : IsDry executed_all.system
unfolding job_system worker_start schedule construct create_job schedule_work push_at pop_at push_on
    pop_on JobQueue.push JobQueue.pop Queue.push Queue.pop acquire load write reset then_job
    pick_job steal execute job_completed recycle call invoke adopt Queue.size
executed_all-IsDry = record {
  queues = queues';
  threads = λ i. no_current _ _ _ _ _ _ _ _ _ _ _ _ (0 == i) (1 == i) refl refl;
}
  where
    queues' : (x : Place) → is_work x ≡ true → (executed_all.system.queues x).list.head ≡ nullptr
    queues' (local_queue i) work = no_local (0 == i) (1 == i)
    queues' (global_queue i) work = no_global (one 7) (one 5) (0 == i) (1 == i)
    queues' _ work = cc

history-drained_example : occurs 1 executed_all.asked ≡ occurs 1 executed_all.system.called
history-drained_example =
    history-drained recording clock 2 0 none 1 no_jobs executed_all
      (λ f s. (refl, refl, (refl, refl, refl), refl)) (omega arith) executed_all-Reachable
      executed_all-IsDry 1
