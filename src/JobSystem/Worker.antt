-- ===== src/JobSystem/Worker.antt =====
-- JobSystem::worker (src/job/job_system.cpp), in the parts of its loop.
pub mod Steal
pub mod Pick
pub mod Execute
pub mod Chain
pub mod Exit
pub mod Shutdown
pub mod Round
use bop.Common.{
  ℕ, zero, suc, ◌+◌, ◌/◌, ◌≡◌, Bool, true, false, Option, none, some, List, [], ◌∷◌, ◌++◌, inc32,
  dec32, leb, ltb, ◌==◌, if◌then◌else◌, not, ◌&&◌,
}
use bop.Memory.{Ptr, nullptr, Run, ok, stuck, ◌>>=◌, load, write}
use bop.Job.{Job, Line, Outcome, call}
use bop.JobSystem.State.{
  System, Thread, job_trace, JobTrace, Place, global_queue, local_queue, recycling_bin, garbage_bin,
  set_thread, push_at, pop_at,
}
use bop.JobSystem.Schedule.{store}
use bop.JobSystem.Complete.{job_completed, clear_at, deallocate_job_queue}

-- The loop that steals: `attempts` counts down as a uint32_t, and a round of the loop asks the next
-- queue behind `steal_from`. The result is the job, the new `steal_from` and the queues asked.
unfoldable pub steal : ℕ → ℕ → ℕ → Ptr → System → Run (System × Ptr × ℕ × List ℕ)
steal zero attempts from job s = stuck
steal (suc fuel) attempts from job s =
    let left = dec32 attempts in
    let i = if leb s.num_threads (inc32 from) then 0 else inc32 from in
    let round = (do
      (s1, job1) ← pop_at (global_queue i) s
      (s2, job2, from2, asked) ← steal fuel left i job1 s1
      ok (s2, job2, from2, i ∷ asked)) in
    if job == nullptr && ltb 0 left then round else ok (s, job, from, [])

abbrev pub set_current : ℕ → Ptr → System → System
set_current me job s = set_thread s me (record (s.threads me) { current_job = job })

-- The search for a job: the local queue, the thread's own global queue, and those of the others.
unfoldable pub pick_job : ℕ → ℕ → System → Run (System × Ptr)
unfolding steal
pick_job fuel me s = do
  (s1, job1) ← pop_at (local_queue (s.threads me).thread_index) s
  (s2, job2) ←
      if job1 == nullptr
      then pop_at (global_queue (s.threads me).thread_index) s1
      else ok (s1, job1)
  (s3, job3, from, asked) ← steal fuel (dec32 s2.num_threads) (s2.threads me).steal_from job2 s2
  ok (set_thread s3 me (record (s3.threads me) { current_job = job3; steal_from = from }), job3)

abbrev pub store_trace : ℕ → ℕ → ℕ → System → System
store_trace start current i s = record s {
  env = record (s.env) {
    traces =
        λ k. if k == i then s.env.traces k ++ job_trace start current i ∷ [] else s.env.traces k;
  };
}

abbrev pub log_lines : List Line → System → System
log_lines lines s = record s { env = record (s.env) { cerr = s.env.cerr ++ lines } }

-- A continuation takes over the parent, which then waits for it too.
unfoldable pub adopt : Ptr → Ptr → System → Run System
adopt job continuation s = if continuation == nullptr then ok s else do
  j ← load s.heap job
  if j.parent == nullptr then ok s else (do
    p ← load s.heap j.parent
    let s1 = store j.parent (record p { num_children = inc32 p.num_children }) s
    c ← load s1.heap continuation
    ok (store continuation (record c { parent = j.parent }) s1))

-- After k_LoopsUntilGC rounds without work the garbage bin is cleared.
unfoldable pub collect : ℕ → System → Run System
collect me s =
    let n = inc32 (s.threads me).no_work_counter in
    if ltb 256 n
    then (do
      (s1, cleared) ← clear_at (garbage_bin me) s
      ok (set_thread s1 me (record (s1.threads me) { no_work_counter = n / 2 })))
    else ok (set_thread s me (record (s.threads me) { no_work_counter = n }))

-- When the loop has ended. The last worker saves the traces and sets the flag.
unfoldable pub worker_exit : ℕ → ℕ → System → Run System
worker_exit fuel me s = do
  s1 ← deallocate_job_queue fuel (global_queue (s.threads me).thread_index) s
  s2 ← deallocate_job_queue fuel (local_queue (s.threads me).thread_index) s1
  s3 ← deallocate_job_queue fuel (recycling_bin me) s2
  s4 ← deallocate_job_queue fuel (garbage_bin me) s3
  let active_workers = s4.num_threads
  ok (record s4 {
    env = record (s4.env) {
      num_threads = dec32 active_workers;
      shutdown_complete = if active_workers == 1 then true else s4.env.shutdown_complete;
      saved = if active_workers == 1 then some s4.env.traces else s4.env.saved;
    };
  })

module _ (body : ℕ → System → Run (System × Outcome)) (clock : ℕ → System → ℕ) where
  -- One round of `while (l_CurrentJob)`: the job is called, its time is noted, and it is completed. `clock`
  -- is what the clock shows at the start (0) and at the end (1). The result is the continuation.
  unfoldable pub execute : ℕ → ℕ → Ptr → System → Run (System × Ptr)
  unfolding adopt
  execute fuel me job s = do
    let start = clock 0 s
    j ← load s.heap job
    (s1, lines) ← call body j s
    let s2 = store_trace start (clock 1 s1) (s1.threads me).thread_index (log_lines lines s1)
    let s3 = set_thread s2 me (record (s2.threads me) { no_work_counter = 0 })
    j3 ← load s3.heap job
    let continuation = j3.continuation
    s4 ← adopt job continuation s3
    (s5, done) ← job_completed fuel me job s4
    ok (set_current me continuation s5, continuation)

  -- `while (l_CurrentJob)`: the rounds of a chain of continuations, with the jobs executed.
  unfoldable pub execute_all : ℕ → ℕ → Ptr → System → Run (System × List Ptr)
  unfolding execute
  execute_all zero me job s = stuck
  execute_all (suc fuel) me job s = if job == nullptr then ok (s, []) else do
    (s1, next) ← execute fuel me job s
    (s2, jobs) ← execute_all fuel me next s1
    ok (s2, job ∷ jobs)

  -- One round of the main loop.
  unfoldable pub worker_round : ℕ → ℕ → System → Run (System × List Ptr)
  unfolding pick_job execute_all collect
  worker_round fuel me s = do
    (s1, job) ← pick_job fuel me s
    (s2, jobs) ← execute_all fuel me job s1
    s3 ← collect me s2
    ok (s3, jobs)

  -- `while (!m_Shutdown)` and what follows.
  unfoldable pub worker_loop : ℕ → ℕ → System → Run System
  unfolding worker_round worker_exit
  worker_loop zero me s = stuck
  worker_loop (suc fuel) me s =
      let again = (do (s1, jobs) ← worker_round fuel me s; worker_loop fuel me s1) in
      if s.is_shutdown then worker_exit fuel me s else again
