-- ===== src/JobQueue.antt =====
-- src/job/job_queue.cpp: JobQueue is the intrusive list behind an atomic flag, which each operation
-- takes by a spin and gives back at its end; JobQueueNonThreadsafe is the list alone.
pub mod Locked
pub mod Shared
use bop.Common.{ℕ, ◌≡◌, Bool, true, false, if◌then◌else◌}
use bop.Memory.{Ptr, Heap, Run, ok, stuck, ◌>>=◌}
use bop.Queue.{IntrusiveList, empty}
use bop.Queue
use bop.Job.{Job, job_link}

pub record JobQueue : Type 0 where
  pub lock : Bool
  pub list : IntrusiveList

abbrev pub new_queue : JobQueue
new_queue = record { lock = false; list = empty }

-- `while (m_Lock.test_and_set());` for a thread that runs alone: a flag that is set stays set.
unfoldable pub acquire : Bool → Run Bool
acquire flag = if flag then stuck else ok true

unfoldable pub push : Heap Job → JobQueue → Ptr → Run (Heap Job × JobQueue)
push h q work = do
  held ← acquire q.lock
  (h', l) ← Queue.push job_link h q.list work
  ok (h', record { lock = false; list = l })

unfoldable pub pop : Heap Job → JobQueue → Run (JobQueue × Ptr)
pop h q = do
  held ← acquire q.lock
  (l, result) ← Queue.pop job_link h q.list
  ok (record { lock = false; list = l }, result)

unfoldable pub clear : JobQueue → Run (JobQueue × ℕ)
clear q = do
  held ← acquire q.lock
  let (l, result) = Queue.clear q.list
  ok (record { lock = false; list = l }, result)

unfoldable pub size : JobQueue → Run (JobQueue × ℕ)
size q = do held ← acquire q.lock; ok (record q { lock = false }, Queue.size q.list)
