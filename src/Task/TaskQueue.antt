-- ===== src/Task/TaskQueue.antt =====
-- src/task/task_queue.h and src/task/task_queue.cpp: the intrusive list of tasks behind a flag, which
-- a LockGuard takes at the start of each operation and gives back at its end.
pub mod Fifo
use bop.Common.{ℕ, Bool, true, false, if◌then◌else◌}
use bop.Memory.{Ptr, Heap, Run, ok, stuck, ◌>>=◌}
use bop.Queue.{IntrusiveList, empty}
use bop.Queue
use bop.Task.{Task, task_link}

pub record TaskQueue : Type 0 where
  pub mutex : Bool
  pub list : IntrusiveList

abbrev pub new_task_queue : TaskQueue
new_task_queue = record { mutex = false; list = empty }

-- The constructor of LockGuard spins: for a thread that runs alone, a flag that is set stays set.
unfoldable pub lock_guard : TaskQueue → Run TaskQueue
lock_guard q = if q.mutex then stuck else ok (record q { mutex = true })

-- Its destructor.
unfoldable pub release : TaskQueue → TaskQueue
release q = record q { mutex = false }

unfoldable pub push : Heap Task → TaskQueue → Ptr → Run (Heap Task × TaskQueue)
unfolding release
push h q t = do
  guarded ← lock_guard q
  (h', l) ← Queue.push task_link h guarded.list t
  ok (h', release (record guarded { list = l }))

unfoldable pub pop : Heap Task → TaskQueue → Run (TaskQueue × Ptr)
unfolding release
pop h q = do
  guarded ← lock_guard q
  (l, result) ← Queue.pop task_link h guarded.list
  ok (release (record guarded { list = l }), result)

unfoldable pub clear : TaskQueue → Run (TaskQueue × ℕ)
unfolding release
clear q = do
  guarded ← lock_guard q
  let (l, result) = Queue.clear guarded.list
  ok (release (record guarded { list = l }), result)

unfoldable pub size : TaskQueue → Run (TaskQueue × ℕ)
unfolding release
size q = do guarded ← lock_guard q; ok (release guarded, Queue.size guarded.list)
