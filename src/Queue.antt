-- ===== src/Queue.antt =====
-- The intrusive singly linked queue: src/job/job_queue.cpp (class JobQueueNonThreadsafe), whose
-- body JobQueue and src/task/task_queue.cpp repeat under a lock. It is generic in the node, of
-- which it uses the link field alone.
pub mod Links
pub mod Shape
pub mod Ops
pub mod Fifo
use bop.Common.{ℕ, ◌≡◌, true, none, some, inc32, dec32, ◌==◌, if◌then◌else◌}
use bop.Memory.{Ptr, nullptr, Heap, Run, ok, ◌>>=◌, load, write}

-- The link field of a node: m_Next of a Job, m_NextLink of a TaskBase.
pub record Linked (N : Type 0) : Type 0 where
  pub next : N → Ptr
  pub set_next : N → Ptr → N
  pub next_set : (n : N) (p : Ptr) → next (set_next n p) ≡ p
  pub set_set : (n : N) (p q : Ptr) → set_next (set_next n p) q ≡ set_next n q

pub record IntrusiveList : Type 0 where
  pub head : Ptr
  pub tail : Ptr
  pub num_entries : ℕ

abbrev pub empty : IntrusiveList
empty = record { head = nullptr; tail = nullptr; num_entries = 0 }

module _ {N : Type 0} (link : Linked N) where
  open link use {next, set_next}

  unfoldable pub push : Heap N → IntrusiveList → Ptr → Run (Heap N × IntrusiveList)
  push h l work = do
    n ← load h work
    let h1 = write h work (some (set_next n nullptr))
    let head1 = if l.head == nullptr then work else l.head
    if l.tail == nullptr
        then ok (h1, record { head = head1; tail = work; num_entries = inc32 l.num_entries })
        else (do
          t ← load h1 l.tail
          let h2 = write h1 l.tail (some (set_next t work))
          ok (h2, record { head = head1; tail = work; num_entries = inc32 l.num_entries }))

  unfoldable pub pop : Heap N → IntrusiveList → Run (IntrusiveList × Ptr)
  pop h l = if l.head == nullptr then ok (l, nullptr) else do
    n ← load h l.head
    let tail1 = if l.head == l.tail then nullptr else l.tail
    ok (record { head = next n; tail = tail1; num_entries = dec32 l.num_entries }, l.head)

unfoldable pub clear : IntrusiveList → IntrusiveList × ℕ
clear l = (empty, l.num_entries)

unfoldable pub size : IntrusiveList → ℕ
size l = l.num_entries
