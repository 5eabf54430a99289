-- ===== src/JobSystem/State.antt =====
-- The members of JobSystem (src/job/job_system.h) and the access to its queues.
use bop.Common.{ℕ, Bool, true, false, Option, List, ltb, ◌==◌, if◌then◌else◌}
use bop.Memory.{Ptr, Heap, Run, ok, fault, ◌>>=◌}
use bop.Queue.{IntrusiveList}
use bop.Queue
use bop.Job.{Job, Line, job_link}
use bop.JobQueue.{JobQueue, new_queue}
use bop.JobQueue

-- The queues: m_GlobalQueues[i], m_LocalQueues[i], and l_RecyclingBin and l_GarbageBin of a thread.
pub data Place : Type 0 where
  global_queue local_queue recycling_bin garbage_bin : ℕ → Place

abbrev pub same_place : Place → Place → Bool
same_place (global_queue i) (global_queue j) = i == j
same_place (local_queue i) (local_queue j) = i == j
same_place (recycling_bin i) (recycling_bin j) = i == j
same_place (garbage_bin i) (garbage_bin j) = i == j
same_place _ _ = false

-- A point in time is a number of ticks.
pub record JobTrace : Type 0 where
  pub start_time : ℕ
  pub current_time : ℕ
  pub thread_index : ℕ

abbrev pub job_trace : (start_time current_time thread_index : ℕ) → JobTrace
job_trace start_time current_time thread_index = record {
  start_time = start_time;
  current_time = current_time;
  thread_index = thread_index;
}

-- What a thread keeps for itself: l_ThreadIndex, l_CurrentJob, the counters `tidx` of schedule_work
-- and `l_no_work_counter` of worker, and worker's local variable `steal_from`.
pub record Thread : Type 0 where
  pub thread_index : ℕ
  pub current_job : Ptr
  pub tidx : ℕ
  pub no_work_counter : ℕ
  pub steal_from : ℕ

-- The members that no queue operation touches. `num_queues` is the length of the queue arrays,
-- m_NumThreads as it was when they were made, and so is that of m_Traces. `saved` is what save_tracelog
-- found in m_Traces when it was called. `called` is a record that the callables keep for the client: the
-- numbers of those that have run, in their order.
pub record Env : Type 0 where
  pub num_threads : ℕ
  pub num_queues : ℕ
  pub is_shutdown : Bool
  pub shutdown_complete : Bool
  pub threads : ℕ → Thread
  pub traces : ℕ → List JobTrace
  pub cerr : List Line
  pub saved : Option (ℕ → List JobTrace)
  pub called : List ℕ

pub record System : Type 0 where
  pub heap : Heap Job
  pub queues : Place → JobQueue
  pub env : Env
  pub open env use *

abbrev pub set_queue : System → Place → JobQueue → System
set_queue s x q = record s { queues = λ y. if same_place x y then q else s.queues y }

abbrev pub set_heap : System → Heap Job → System
set_heap s h = record s { heap = h }

abbrev pub set_thread : System → ℕ → Thread → System
set_thread s me t = record s {
  env = record (s.env) { threads = λ i. if me == i then t else s.env.threads i };
}

-- An index past the end of a queue array is undefined behaviour.
abbrev pub in_range : System → Place → Bool
in_range s (global_queue i) = ltb i s.num_queues
in_range s (local_queue i) = ltb i s.num_queues
in_range s (recycling_bin t) = true
in_range s (garbage_bin t) = true

-- The bins are of the class without a lock, whose flag is no part of it.
unfoldable pub push_on : Place → Heap Job → JobQueue → Ptr → Run (Heap Job × JobQueue)
push_on (global_queue i) h q work = JobQueue.push h q work
push_on (local_queue i) h q work = JobQueue.push h q work
push_on _ h q work = do (h', l) ← Queue.push job_link h q.list work; ok (h', record q { list = l })

unfoldable pub pop_on : Place → Heap Job → JobQueue → Run (JobQueue × Ptr)
pop_on (global_queue i) h q = JobQueue.pop h q
pop_on (local_queue i) h q = JobQueue.pop h q
pop_on _ h q = do (l, p) ← Queue.pop job_link h q.list; ok (record q { list = l }, p)

unfoldable pub push_at : Place → Ptr → System → Run System
unfolding push_on
push_at x work s =
    if in_range s x
    then (do (h', q) ← push_on x s.heap (s.queues x) work; ok (set_queue (set_heap s h') x q))
    else fault

unfoldable pub pop_at : Place → System → Run (System × Ptr)
unfolding pop_on
pop_at x s =
    if in_range s x
    then (do (q, p) ← pop_on x s.heap (s.queues x); ok (set_queue s x q, p))
    else fault
