-- ===== src/JobSystem/Start.antt =====
-- The constructor of JobSystem and the start of its workers, shutdown, wait_for_shutdown,
-- clear_tracelog and the getters (src/job/job_system.cpp).
pub mod Once
use bop.Common.{
  ℕ, zero, suc, ◌+◌, ◌%◌, Bool, true, false, Option, none, some, List, [], ◌∷◌, inc64, ltb, ◌==◌,
  map, ◌++◌, ◌-◌, ◌/◌, if◌then◌else◌,
}
use bop.Memory.{Ptr, nullptr, Heap, Run, ok, ◌>>=◌}
use bop.Job.{Job, Work}
use bop.JobQueue.{JobQueue, new_queue}
use bop.JobSystem.Schedule.{schedule}
use bop.JobSystem.State.{
  Place, global_queue, local_queue, recycling_bin, garbage_bin, System, Env, Thread, set_thread,
  JobTrace,
}

-- The static members that only the constructor and the getters use, the pool, and the threads that
-- were launched, by their index.
pub record Process : Type 0 where
  pub init_once : ℕ
  pub memory_resource : Ptr
  pub application_start : ℕ
  pub launched : List ℕ
  pub system : System

-- What a thread keeps before it does anything.
abbrev pub new_thread : Thread
new_thread = record {
  thread_index = 0;
  current_job = nullptr;
  tidx = 0;
  no_work_counter = 0;
  steal_from = 0;
}

-- The members as the program starts; jobs may only come later.
abbrev pub new_process : Heap Job → Process
new_process h = record {
  init_once = 0;
  memory_resource = nullptr;
  application_start = 0;
  launched = [];
  system = record {
    heap = h;
    queues = λ x. new_queue;
    env = record {
      num_threads = 0;
      num_queues = 0;
      is_shutdown = false;
      shutdown_complete = false;
      threads = λ i. new_thread;
      traces = λ i. [];
      cerr = [];
      saved = none;
      called = [];
    };
  };
}

abbrev pub num_workers : ℕ → Option ℕ → ℕ
num_workers hardware_concurrency num_threads =
    let n : ℕ = elim num_threads [ none ↦ hardware_concurrency | some k ↦ k ] in
    if n == 0 then 1 else n

-- New arrays of queues; the bins belong to the threads.
abbrev pub new_arrays : (Place → JobQueue) → Place → JobQueue
new_arrays q (global_queue i) = new_queue
new_arrays q (local_queue i) = new_queue
new_arrays q (recycling_bin i) = q (recycling_bin i)
new_arrays q (garbage_bin i) = q (garbage_bin i)

-- `for (uint32_t i = 0; i < m_NumThreads; ++i)`, with so many rounds to go.
abbrev pub launch : ℕ → ℕ → List ℕ
launch zero i = []
launch (suc rounds) i = i ∷ launch rounds (i + 1)

-- `hardware_concurrency` and `now` are what the platform and the clock answer.
unfoldable pub job_system : ℕ → ℕ → Option ℕ → Ptr → Process → Process
job_system hardware_concurrency now num_threads memory_resource p =
    let count = p.init_once in
    let p1 = record p { init_once = inc64 count } in
    let n = num_workers hardware_concurrency num_threads in
    let s = p.system in
    let p2 = record p1 {
      memory_resource = memory_resource;
      application_start = now;
      launched = launch n 0;
      system = record s {
        queues = new_arrays s.queues;
        env = record (s.env) { num_threads = n; num_queues = n };
      };
    } in
    if ltb 0 p.init_once then p else if ltb 0 count then p1 else p2

-- The start of worker: its index, and the queue behind which it steals first.
unfoldable pub worker_start : ℕ → System → System
worker_start thread_index s = set_thread s thread_index (record (s.threads thread_index) {
  thread_index = thread_index;
  steal_from = (thread_index + 1) % s.num_threads;
})

abbrev pub shutdown : System → System
shutdown s = record s { env = record (s.env) { is_shutdown = true } }

-- m_ShutdownComplete is read once in each round; `reads` says what it is then. The result is the
-- number of rounds that sleep; `none` if the fuel runs out.
unfoldable pub wait_for_shutdown : ℕ → (ℕ → Bool) → ℕ → Option ℕ
wait_for_shutdown zero reads i = none
wait_for_shutdown (suc fuel) reads i =
    let rest = wait_for_shutdown fuel reads (i + 1) in if reads i then some i else rest

abbrev pub clear_tracelog : System → System
clear_tracelog s = record s { env = record (s.env) { traces = λ i. [] } }

abbrev pub get_thread_index : ℕ → System → ℕ
get_thread_index me s = (s.threads me).thread_index

abbrev pub get_num_threads : System → ℕ
get_num_threads s = s.num_threads

abbrev pub get_memory_resource : Process → Ptr
get_memory_resource p = p.memory_resource

-- The wait of a worker until all have started: remaining_workers is read once in each round, after this
-- one has counted itself. The result is the number of rounds that sleep; `none` if the fuel runs out.
unfoldable pub wait_for_workers : ℕ → (ℕ → ℕ) → ℕ → Option ℕ
wait_for_workers zero reads i = none
wait_for_workers (suc fuel) reads i =
    let rest = wait_for_workers fuel reads (i + 1) in if ltb 0 (reads i) then rest else some i

-- `bop::schedule`: a JobSystem is constructed with the defaults, which makes the pool if there is none.
unfoldable pub schedule_globally :
    (hardware_concurrency now new_delete_resource me : ℕ) (fresh : Ptr) (work : Work) (parent : Ptr)
    (thread_index : Option ℕ)
    → Process
    → Run (Process × Ptr)
unfolding job_system
schedule_globally hardware_concurrency now new_delete_resource me fresh work parent thread_index p =
    do
      let p1 = job_system hardware_concurrency now none new_delete_resource p
      (s, job) ← schedule me fresh work parent thread_index p1.system
      ok (record p1 { system = s }, job)
