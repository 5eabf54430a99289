-- ===== src/Task/Scheduler.antt =====
-- src/task/task_scheduler.h and src/task/task_scheduler.cpp: where a scheduler has its tasks from.
use bop.Common.{
  ◌≡◌, refl, false, none, some, List, [], ◌∷◌, tail, first, mem_self, ◌==◌, if◌then◌else◌,
  eqb_of_mem, eqb_sym,
}
use bop.Memory.{
  Ptr, nullptr, Heap, Run, ok, ◌>>=◌, IsLive, IsLive-cases, load, load_lem, write, write_self,
  write_other, Returns, Returns-bind,
}
use bop.Queue
use bop.Queue.Links.{Links-IsLive}
use bop.Queue.Shape.{IsQueue, IsQueue-same}
use bop.Queue.Ops.{Popped, pop-tail}
use bop.Task.{Task, new_task, reset, task_link}
use bop.Task.TaskQueue.{TaskQueue, pop, lock_guard, release}

-- The heap, and the queues of the calling thread: m_Recycle and m_Garbage.
pub record TaskScheduler : Type 0 where
  pub heap : Heap Task
  pub recycle : TaskQueue
  pub garbage : TaskQueue

-- `fresh` is the address that the memory resource returns if it is asked.
unfoldable pub allocate_task : Ptr → TaskScheduler → Run (TaskScheduler × Ptr)
allocate_task fresh s = do
  (q, x) ← pop s.heap s.recycle
  if x == nullptr
      then ok (record s { heap = write s.heap fresh (some new_task); recycle = q }, fresh)
      else (do
        t ← load s.heap x
        ok (record s { heap = write s.heap x (some (reset t)); recycle = q }, x))

-- The fields of TaskBase are as for a new task.
abbrev pub IsReset : Task → Type 0
IsReset t =
    (t.num_dependencies ≡ 1)
    × (t.parent ≡ nullptr)
    × (t.next_link ≡ nullptr)
    × (t.thread_index ≡ none)

-- What the task may have been before: a task of the queue, or none.
abbrev pub before : Heap Task → List Ptr → Task
before h [] = new_task
before h (p ∷ ps) = elim (h p) [ none ↦ new_task | some t ↦ t ]

pub record Allocated (fresh : Ptr) (s : TaskScheduler) (ps : List Ptr) (r : TaskScheduler × Ptr)
    : Type 0 where
  pub address : r.1 ≡ first ps fresh
  pub free : r.0.recycle.mutex ≡ false
  pub queue : IsQueue task_link r.0.heap r.0.recycle.list (tail ps)
  pub task :
      (t : Task) × (r.0.heap r.1 ≡ some t)
      × IsReset t
      × (t.work ≡ (before s.heap ps).work)
      × (t.function_ptr ≡ (before s.heap ps).function_ptr)
      × (t.continuation ≡ (before s.heap ps).continuation)
  pub others : (a : Ptr) → (a == r.1) ≡ false → r.0.heap a ≡ s.heap a

pop-Popped :
    (h : Heap Task) (q : TaskQueue) (ps : List Ptr)
    → q.mutex ≡ false
    → IsQueue task_link h q.list ps
    → Returns (λ r. (r.0.mutex ≡ false) × Popped task_link h ps (r.0.list, r.1)) (pop h q)
unfolding pop lock_guard release
pop-Popped h q ps free d = rw free (
    Returns-bind (Popped task_link h ps) _ (Queue.pop task_link h q.list) _
      (pop-tail task_link h q.list ps d) λ r e. (refl, e))

module _ (fresh : Ptr) (s : TaskScheduler) (free : s.recycle.mutex ≡ false) where
  finish-Allocated :
      (ps : List Ptr)
      → IsQueue task_link s.heap s.recycle.list ps
      → (r : TaskQueue × Ptr) → (r.0.mutex ≡ false) × Popped task_link s.heap ps (r.0.list, r.1)
      → Returns (Allocated fresh s ps) (
          if r.1 == nullptr
          then ok (record s { heap = write s.heap fresh (some new_task); recycle = r.0 }, fresh)
          else (do
            t ← load s.heap r.1
            ok (record s { heap = write s.heap r.1 (some (reset t)); recycle = r.0 }, r.1)))
  unfolding reset
  finish-Allocated [] q (t, p) (open_again, (is_null, rest)) = rw is_null (record {
    address = refl;
    free = open_again;
    queue = IsQueue-same task_link s.heap _ t.list [] (λ a m. cc) rest;
    task = (
      new_task,
      write_self s.heap fresh (some new_task),
      (refl, refl, refl, refl),
      refl,
      refl,
      refl,
    );
    others = λ a ne. write_other s.heap fresh (some new_task) a ne;
  })
  finish-Allocated (b ∷ ps) q (t, p) (open_again, (at_b, rest)) =
      let live : IsLive s.heap b =
        Links-IsLive task_link s.heap (b ∷ ps) nullptr b q.links (mem_self b ps) in
      let (k, found) = IsLive-cases s.heap b live in
      rw (at_b, live.0, load_lem s.heap b k live.0 found)
        (record {
          address = refl;
          free = open_again;
          queue =
              IsQueue-same task_link s.heap _ t.list ps
                (λ a m. write_other s.heap b _ a (eqb_sym b a (eqb_of_mem b a ps q.distinct.0 m)))
                rest;
          task = (
            reset k,
            write_self s.heap b (some (reset k)),
            (refl, refl, refl, refl),
            rw (before, found),
            rw (before, found),
            rw (before, found),
          );
          others = λ a ne. write_other s.heap b (some (reset k)) a ne;
        })

  -- With the flag of m_Recycle clear, allocate_task returns the front of that queue, or a new task at
  -- the address of the memory resource if it is empty. The fields of TaskBase are as for a new task;
  -- a task that is used again keeps its callable, its function pointer and its continuation. The
  -- other tasks have not changed, and the flag is clear again.
  allocate_task-Allocated :
      (ps : List Ptr)
      → IsQueue task_link s.heap s.recycle.list ps
      → Returns (Allocated fresh s ps) (allocate_task fresh s)
  unfolding allocate_task
  allocate_task-Allocated ps q =
      Returns-bind _ _ (pop s.heap s.recycle) _ (pop-Popped s.heap s.recycle ps free q)
        (finish-Allocated ps q)
