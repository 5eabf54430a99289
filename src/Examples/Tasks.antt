-- ===== src/Examples/Tasks.antt =====
-- The theorems on task queues and the allocation of tasks, at concrete inputs (src/task/task_queue.cpp,
-- src/task/task_scheduler.cpp).
use bop.Common.{◌≡◌, refl, false, none, some, List, [], ◌∷◌, ◌==◌, if◌then◌else◌}
use bop.Memory.{nullptr, Heap, Returns}
use bop.Queue.{empty}
use bop.Queue.Shape.{IsQueue, empty-IsQueue}
use bop.Queue.Fifo.{
  Call, pushes, pops, clears, asks_size, done, popped, counted, AdmitsAll, Refines,
}
use bop.Task.{Task, new_task, task_link}
use bop.Task.TaskQueue.{new_task_queue}
use bop.Task.TaskQueue.Fifo.{run, run-spec_run_guarded}
use bop.Task.Scheduler.{TaskScheduler}
use bop.Job.{callable}

abbrev tasks : Heap Task
tasks a =
    if a == 1
    then some new_task
    else if a == 2
    then some (record new_task { parent = 1; work = callable 3 })
    else none

abbrev history : List Call
history = pushes 1 ∷ pushes 2 ∷ pops ∷ asks_size ∷ pushes 1 ∷ clears ∷ pops ∷ []

history-AdmitsAll : AdmitsAll tasks [] history
history-AdmitsAll = (
  ((refl, refl), refl),
  (((refl, refl), refl), (tt, (tt, (((refl, refl), refl), (tt, (tt, tt)))))),
)

run-spec_run_guarded_example :
    Returns
      (λ ((g, q), as').
        (q.mutex ≡ false)
        × Refines task_link tasks []
            (done ∷ done ∷ popped 1 ∷ counted 1 ∷ done ∷ counted 2 ∷ popped nullptr ∷ [])
            ((g, q.list), as'))
      (run (tasks, new_task_queue) history)
run-spec_run_guarded_example =
    run-spec_run_guarded tasks empty [] history (empty-IsQueue task_link tasks) history-AdmitsAll

abbrev scheduler : TaskScheduler
scheduler = record {
  heap = tasks;
  recycle = record { mutex = false; list = record { head = 2; tail = 2; num_entries = 1 } };
  garbage = new_task_queue;
}

recycle-IsQueue : IsQueue task_link tasks scheduler.recycle.list (2 ∷ [])
recycle-IsQueue = record {
  links = ((refl, refl), refl, tt);
  distinct = (refl, tt);
  head = refl;
  tail = refl;
  count = refl;
}
