-- ===== src/JobQueue/Shared.antt =====
-- A JobQueue that several threads use (src/job/job_queue.cpp): the steps of each of them, between
-- which the others may move. A thread spins on the flag, and with it set reads the list and its jobs,
-- writes them back with the change of its operation, and clears the flag.
pub mod Stages
pub mod Linear
use bop.Common.{ℕ, Bool, true, false, List, [], ◌∷◌, ◌++◌, ◌==◌, ◌≡◌, if◌then◌else◌}
use bop.Memory.{Ptr, Heap, Run, ok, fault, stuck, aborted}
use bop.Queue.{IntrusiveList}
use bop.Queue.Fifo
use bop.Queue.Fifo.{Call, Answer, spec_run, Admits}
use bop.Job.{Job, job_link}
use bop.JobQueue.{JobQueue, new_queue}

-- Where a thread is in an operation. `changing` holds what it has read.
pub data Stage : Type 0 where
  idle : Stage
  spinning entered : Call → Stage
  changing : Call → Heap Job → IntrusiveList → Stage
  leaving : Answer → Stage

-- The jobs, the queue, and the stage of each thread, with the operations that have taken effect so
-- far and their answers, and whether one of them went wrong.
pub record Shared : Type 0 where
  pub heap : Heap Job
  pub queue : JobQueue
  pub stage : ℕ → Stage
  pub calls : List Call
  pub answers : List Answer
  pub failed : Bool

abbrev pub new_shared : Heap Job → Shared
new_shared h = record {
  heap = h;
  queue = new_queue;
  stage = λ i. idle;
  calls = [];
  answers = [];
  failed = false;
}

abbrev pub set_stage : ℕ → Stage → Shared → Shared
set_stage me p s = record s { stage = λ i. if me == i then p else s.stage i }

abbrev pub set_flag : Bool → Shared → Shared
set_flag flag s = record s { queue = record (s.queue) { lock = flag } }

-- `m_Lock.test_and_set()`, once.
abbrev pub test_and_set : ℕ → Call → Shared → Shared
test_and_set me c s = if s.queue.lock then s else set_stage me (entered c) (set_flag true s)

abbrev pub read_list : ℕ → Call → Shared → Shared
read_list me c s = set_stage me (changing c s.heap s.queue.list) s

-- What the operation makes of the list, or that it has gone through a pointer to no job.
abbrev pub write_list : ℕ → Call → Run ((Heap Job × IntrusiveList) × Answer) → Shared → Shared
write_list me c (ok ((h, l), a)) s = set_stage me (leaving a) (record s {
  heap = h;
  queue = record (s.queue) { list = l };
  calls = s.calls ++ c ∷ [];
  answers = s.answers ++ a ∷ [];
})
write_list me c fault s = record s { failed = true }
write_list me c stuck s = record s { failed = true }
write_list me c aborted s = record s { failed = true }

-- `m_Lock.clear()`
abbrev pub clear_flag : ℕ → Shared → Shared
clear_flag me s = set_stage me idle (set_flag false s)

-- The jobs in the queue, by the operations that have taken effect.
abbrev pub contents : Shared → List Ptr
contents s = (spec_run [] s.calls).0

-- A job that is pushed must be live, and not be queued when the push takes effect.
pub data Step : Shared → Shared → Type 0 where
  calls_it :
      (me : ℕ) (c : Call) (s : Shared) → s.stage me ≡ idle → Step s (set_stage me (spinning c) s)
  tries : (me : ℕ) (c : Call) (s : Shared) → s.stage me ≡ spinning c → Step s (test_and_set me c s)
  reads : (me : ℕ) (c : Call) (s : Shared) → s.stage me ≡ entered c → Step s (read_list me c s)
  writes :
      (me : ℕ) (c : Call) (h : Heap Job) (l : IntrusiveList) (s : Shared)
      → s.stage me ≡ changing c h l
      → Admits s.heap (contents s) c
      → Step s (write_list me c (Fifo.step job_link (h, l) c) s)
  leaves : (me : ℕ) (a : Answer) (s : Shared) → s.stage me ≡ leaving a → Step s (clear_flag me s)

pub data Reachable (h : Heap Job) : Shared → Type 0 where
  start : Reachable h (new_shared h)
  after : {s t : Shared} → Reachable h s → Step s t → Reachable h t
