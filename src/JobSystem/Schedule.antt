-- ===== src/JobSystem/Schedule.antt =====
-- create_job, construct, schedule_work and schedule (src/job/job_system.cpp, job_system.inl), and
-- Job::then (src/job/job.inl). `me` is the calling thread; `fresh` is the address that the memory
-- resource returns if it is asked.
pub mod Create
pub mod Enqueue
pub mod Continue
pub mod Late
use bop.Common.{ℕ, ◌≡◌, Bool, true, false, Option, none, some, inc32, leb, ◌==◌, if◌then◌else◌}
use bop.Memory.{Ptr, nullptr, Run, ok, aborted, ◌>>=◌, load, write}
use bop.Job.{Job, Work, new_job, reset}
use bop.JobSystem.State.{
  System, Place, global_queue, local_queue, recycling_bin, set_heap, set_thread, push_at, pop_at,
}

abbrev pub store : Ptr → Job → System → System
store p j s = set_heap s (write s.heap p (some j))

unfoldable pub create_job : ℕ → Ptr → System → Run (System × Ptr)
create_job me fresh s = do
  (s1, result) ← pop_at (recycling_bin me) s
  if result == nullptr
      then (if fresh == nullptr then aborted else ok (store fresh new_job s1, fresh))
      else (do j ← load s1.heap result; ok (store result (reset j) s1, result))

unfoldable pub construct : ℕ → Ptr → Work → Ptr → Option ℕ → System → Run (System × Ptr)
construct me fresh fn parent thread_index s = do
  (s1, result) ← create_job me fresh s
  j ← load s1.heap result
  ok (
    store result (record j { parent = parent; thread_index = thread_index; work = fn }) s1,
    result,
  )

-- The test of schedule_work: no thread was asked for, or one that is out of range.
abbrev pub is_untagged : Option ℕ → ℕ → Bool
is_untagged none n = true
is_untagged (some i) n = leb n i

-- `++tidx; if (tidx >= m_NumThreads) tidx = 0;`
abbrev pub next_index : ℕ → ℕ → ℕ
next_index n i = if leb n (inc32 i) then 0 else inc32 i

unfoldable pub schedule_work : ℕ → Ptr → System → Run (System × Bool)
schedule_work me work s = do
  j ← load s.heap work
  let th = s.threads me
  if is_untagged j.thread_index s.num_threads
      then (do
        let i = next_index s.num_threads th.tidx
        s2 ← push_at (global_queue i) work (set_thread s me (record th { tidx = i }))
        ok (s2, true))
      else (do s2 ← push_at (local_queue th.thread_index) work s; ok (s2, true))

unfoldable pub schedule : ℕ → Ptr → Work → Ptr → Option ℕ → System → Run (System × Ptr)
schedule me fresh fn parent thread_index s = do
  (s1, work) ← construct me fresh fn parent thread_index s
  (s2, queued) ← schedule_work me work s1
  ok (s2, work)

-- `job.then(fn, thread_index)`: the continuation is made, and not yet scheduled.
unfoldable pub then_job : ℕ → Ptr → Ptr → Work → Option ℕ → System → Run (System × Ptr)
then_job me fresh job fn thread_index s = do
  (s1, next) ← construct me fresh fn nullptr thread_index s
  j ← load s1.heap job
  ok (store job (record j { continuation = next }) s1, next)
