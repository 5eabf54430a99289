-- ===== src/JobSystem/Complete.antt =====
-- job_completed, recycle and deallocate_job_queue (src/job/job_system.cpp).
pub mod Recycle
pub mod Family
pub mod Climb
pub mod Deallocate
use bop.Common.{
  ℕ, zero, suc, ◌+◌, ◌^◌, ◌≡◌, Bool, true, false, Option, none, some, dec32, leb, ◌==◌,
  if◌then◌else◌,
}
use bop.Memory.{Ptr, nullptr, Run, ok, stuck, ◌>>=◌, load, write}
use bop.Queue
use bop.JobQueue
use bop.Job.{Job}
use bop.JobSystem.State.{
  System, Place, recycling_bin, garbage_bin, set_heap, set_queue, push_at, pop_at,
}
use bop.JobSystem.Schedule.{store}

-- k_RecyclingCapacity
abbrev pub recycling_capacity : ℕ
recycling_capacity = 2 ^ 10

unfoldable pub recycle : ℕ → Ptr → System → Run System
unfolding Queue.size
recycle me work s =
    if leb (Queue.size (s.queues (recycling_bin me)).list) recycling_capacity
    then push_at (recycling_bin me) work s
    else push_at (garbage_bin me) work s

-- The calls climb from parent to parent: one unit of fuel for each.
unfoldable pub job_completed : ℕ → ℕ → Ptr → System → Run (System × Bool)
job_completed zero me job s = stuck
job_completed (suc fuel) me job s = do
  j ← load s.heap job
  let remaining = j.num_children
  let s1 = store job (record j { num_children = dec32 remaining }) s
  if leb remaining 1
      then (do
        s2 ←
            if j.parent == nullptr
            then ok s1
            else (do (s', done) ← job_completed fuel me j.parent s1; ok s')
        s3 ← recycle me job s2
        ok (s3, true))
      else ok (s1, false)

-- `deallocate`: the address holds no object any more.
abbrev pub deallocate : Ptr → System → System
deallocate p s = set_heap s (write s.heap p none)

-- `for (auto* job = jq.pop(); job; job = jq.pop()) deallocate(job);`, a unit of fuel for each pop.
unfoldable pub deallocate_loop : ℕ → Place → System → Run System
deallocate_loop zero x s = stuck
deallocate_loop (suc fuel) x s = do
  (s1, job) ← pop_at x s
  if job == nullptr then ok s1 else deallocate_loop fuel x (deallocate job s1)

unfoldable pub clear_at : Place → System → Run (System × ℕ)
unfolding Queue.clear
clear_at x s =
    let (l, n) = Queue.clear (s.queues x).list in
    ok (set_queue s x (record (s.queues x) { list = l }), n)

unfoldable pub deallocate_job_queue : ℕ → Place → System → Run System
unfolding deallocate_loop clear_at
deallocate_job_queue fuel x s = do s1 ← deallocate_loop fuel x s; (s2, n) ← clear_at x s1; ok s2
