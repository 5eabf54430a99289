-- ===== src/JobSystem/Inv/Access.antt =====
-- A push and a pop at a place of the pool (src/job/job_system.cpp, src/job/job_queue.cpp).
use bop.Common.{
  ◌≡◌, refl, sym, true, false, List, [], ◌∷◌, ◌++◌, arith, first, tail, mem, mem-append, ◌∙◌,
  eqb_of_mem, eqb_sym, if◌then◌else◌, Bool-cases, inl, inr,
}
use mathlib.Core.Bool.{false≢true}
use bop.Memory.{Ptr, nullptr, Heap, IsLive, Returns, Returns-bind}
use bop.Queue.{IntrusiveList}
use bop.Queue
use bop.Queue.Links.{SameOn}
use bop.Queue.Shape.{IsQueue-same, SameButLinks}
use bop.Queue.Ops.{Pushed, push-snoc, Popped, pop-tail}
use bop.Job.{Job, job_link}
use bop.JobQueue.{JobQueue}
use bop.JobQueue.Locked.{IsIdle, LockedPushed, push-snoc_locked, LockedPopped, pop-tail_locked}
use bop.JobSystem.State.{
  Place, global_queue, local_queue, same_place, System, set_queue, set_heap, in_range, push_on,
  pop_on, push_at, pop_at,
}
use bop.JobSystem.Inv.Places.{Contents, Inv, put, NotQueued, put-Apart}

mem-tail : (p : Ptr) (ps : List Ptr) → mem p (tail ps) ≡ true → mem p ps ≡ true
mem-tail p [] m = m
mem-tail p (q ∷ ps) m = ground arith

-- push_on and pop_on do to the list what JobQueue does, whichever class the place is of.
push_on-Pushed :
    (x : Place) (h : Heap Job) (q : JobQueue) (work : Ptr) (ps : List Ptr)
    → IsIdle h q ps
    → IsLive h work
    → mem work ps ≡ false
    → Returns (LockedPushed h ps work) (push_on x h q work)
unfolding push_on
push_on-Pushed (global_queue i) h q work ps idle live out =
    push-snoc_locked h q work ps idle live out
push_on-Pushed (local_queue i) h q work ps idle live out =
    push-snoc_locked h q work ps idle live out
push_on-Pushed _ h q work ps idle live out =
    Returns-bind (Pushed job_link h ps work) _ (Queue.push job_link h q.list work) _
      (push-snoc job_link h q.list work ps idle.list live out)
      λ r d. record { free = idle.free; pushed = d }

pop_on-Popped :
    (x : Place) (h : Heap Job) (q : JobQueue) (ps : List Ptr)
    → IsIdle h q ps
    → Returns (LockedPopped h ps) (pop_on x h q)
unfolding pop_on
pop_on-Popped (global_queue i) h q ps idle = pop-tail_locked h q ps idle
pop_on-Popped (local_queue i) h q ps idle = pop-tail_locked h q ps idle
pop_on-Popped _ h q ps idle =
    Returns-bind (Popped job_link h ps) _ (Queue.pop job_link h q.list) _
      (pop-tail job_link h q.list ps idle.list)
      λ r d. (d.0, record { free = idle.free; list = d.1 })

-- A queue does not notice a change at nodes that are not its own.
pub IsIdle-same :
    (h g : Heap Job) (q : JobQueue) (ps : List Ptr)
    → SameOn job_link h g ps
    → IsIdle h q ps
    → IsIdle g q ps
IsIdle-same h g q ps same idle = record {
  free = idle.free;
  list = IsQueue-same job_link h g q.list ps same idle.list;
}

-- What a push at `x` leaves.
pub record PushedAt (s : System) (c : Contents) (x : Place) (work : Ptr) (t : System) : Type 0 where
  pub inv : Inv t (put c x (c x ++ work ∷ []))
  pub fields : SameButLinks job_link s.heap t.heap
  pub env : t.env ≡ s.env

-- A queue in place of the one at `x`, which stands for some of the jobs that were there.
pub replaced-Inv :
    (s : System) (c : Contents) (x : Place) (q : JobQueue) (ps : List Ptr)
    → Inv s c
    → IsIdle s.heap q ps
    → ((p : Ptr) → mem p ps ≡ true → mem p (c x) ≡ true)
    → Inv (set_queue s x q) (put c x ps)
replaced-Inv s c x q ps inv idle own = record {
  idle = idle';
  apart = put-Apart c x ps inv.apart (λ y p m m'. inv.apart x y p (own p m) m');
}
  where
    idle' : (y : Place) → IsIdle s.heap (if same_place x y then q else s.queues y) (put c x ps y)
    idle' y = elim (Bool-cases (same_place x y)) [
      | inl hit ↦ rw hit idle
      | inr miss ↦ rw miss (inv.idle y)
    ]

-- What a pop at `x` leaves: the job is the front, and no job has changed.
pub record PoppedAt (s : System) (c : Contents) (x : Place) (r : System × Ptr) : Type 0 where
  pub inv : Inv r.0 (put c x (tail (c x)))
  pub job : r.1 ≡ first (c x) nullptr
  pub heap : r.0.heap ≡ s.heap
  pub env : r.0.env ≡ s.env

module _ (s : System) (c : Contents) (x : Place) (inv : Inv s c) (room : in_range s x ≡ true) where
  module _ (work : Ptr) (live : IsLive s.heap work) (out : NotQueued c work) where
    pushed-Inv :
        (h : Heap Job) (q : JobQueue)
        → LockedPushed s.heap (c x) work (h, q)
        → Inv (set_queue (set_heap s h) x q) (put c x (c x ++ work ∷ []))
    pushed-Inv h q d = record {
      idle = idle';
      apart = put-Apart c x (c x ++ work ∷ []) inv.apart own;
    }
      where
        own :
            (y : Place) (p : Ptr)
            → mem p (c x ++ work ∷ []) ≡ true
            → mem p (c y) ≡ true
            → same_place x y ≡ true
        own y p m m' = elim (Bool-cases (mem p (c x))) [
          | inl old ↦ inv.apart x y p old m'
          | inr new ↦
              ground (arith, mem-append p (c x) (work ∷ []), eqb_of_mem work p (c y) (out y) m')
        ]

        same : (y : Place) → same_place x y ≡ false → SameOn job_link s.heap h (c y)
        same y miss a m = elim (Bool-cases (mem a (c x))) [
          | inl both ↦ absurd (false≢true (sym miss ∙ inv.apart x y a both m))
          | inr new ↦ d.pushed.frame a (rw (eqb_sym work a (eqb_of_mem work a (c y) (out y) m)) new)
        ]

        idle' :
            (y : Place)
            → IsIdle h (if same_place x y then q else s.queues y) (put c x (c x ++ work ∷ []) y)
        idle' y = elim (Bool-cases (same_place x y)) [
          | inl hit ↦ rw hit (record { free = d.free; list = d.pushed.queue })
          | inr miss ↦ rw miss (IsIdle-same s.heap h (s.queues y) (c y) (same y miss) (inv.idle y))
        ]

    pub push_at-PushedAt : Returns (PushedAt s c x work) (push_at x work s)
    unfolding push_at
    push_at-PushedAt = rw room (
        Returns-bind (LockedPushed s.heap (c x) work) _ (push_on x s.heap (s.queues x) work) _
          (push_on-Pushed x s.heap (s.queues x) work (c x) (inv.idle x) live (out x))
          λ r d. record { inv = pushed-Inv r.0 r.1 d; fields = d.pushed.fields; env = refl })

  pub pop_at-PoppedAt : Returns (PoppedAt s c x) (pop_at x s)
  unfolding pop_at
  pop_at-PoppedAt = rw room (
      Returns-bind (LockedPopped s.heap (c x)) _ (pop_on x s.heap (s.queues x)) _
        (pop_on-Popped x s.heap (s.queues x) (c x) (inv.idle x))
        λ r d. record {
          inv = replaced-Inv s c x r.0 (tail (c x)) inv d.1 (λ p m. mem-tail p (c x) m);
          job = d.0;
          heap = refl;
          env = refl;
        })
