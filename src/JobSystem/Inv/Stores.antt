-- ===== src/JobSystem/Inv/Stores.antt =====
-- Writes to the jobs of the pool (src/job/job_system.cpp), and what its queues see of them.
use bop.Common.{
  ◌≡◌, sym, subst, true, Option, some, List, ◌∷◌, mem, mem_self, Distinct, ◌∙◌, eqb_of_mem, eqb_sym,
  Bool-cases, inl, inr,
}
use mathlib.Core.Bool.{false≢true}
use bop.Memory.{Ptr, nullptr, IsLive, write, write_other}
use bop.Queue.Links.{Links-IsLive, Links-relinked}
use bop.Job.{Job, job_link}
use bop.JobQueue.Locked.{IsIdle}
use bop.JobSystem.State.{Place, same_place, System, set_heap}
use bop.JobSystem.Inv.Places.{Contents, Inv, put, NotQueued}
use bop.JobSystem.Inv.Access.{IsIdle-same}

-- A queued job is live.
pub queued-IsLive :
    (s : System) (c : Contents) (x : Place) (p : Ptr)
    → Inv s c
    → mem p (c x) ≡ true
    → IsLive s.heap p
queued-IsLive s c x p inv m = Links-IsLive job_link s.heap (c x) nullptr p (inv.idle x).list.links m

-- The front of a queue is in no queue once it is popped.
pub first-NotQueued :
    (s : System) (c : Contents) (x : Place) (p : Ptr) (ps : List Ptr)
    → Inv s c
    → c x ≡ p ∷ ps
    → NotQueued (put c x ps) p
first-NotQueued s c x p ps inv e y = elim (Bool-cases (same_place x y)) [
  | inl hit ↦ rw hit (subst Distinct e (inv.idle x).list.distinct).0
  | inr miss ↦ rw miss (elim (Bool-cases (mem p (c y))) [
    | inl m ↦ absurd (false≢true (sym miss ∙ inv.apart x y p (rw e (mem_self p ps)) m))
    | inr out ↦ out
  ])
]

-- A write to a job that is not queued disturbs no queue.
pub store-Inv :
    (s : System) (c : Contents) (p : Ptr) (o : Option Job)
    → NotQueued c p
    → Inv s c
    → Inv (set_heap s (write s.heap p o)) c
store-Inv s c p o out inv = record {
  idle = λ x.
      IsIdle-same s.heap _ (s.queues x) (c x)
        (λ a m. write_other s.heap p o a (eqb_sym p a (eqb_of_mem p a (c x) (out x) m)))
        (inv.idle x);
  apart = inv.apart;
}

-- Nor does a write to a queued job, if it keeps the link.
pub relinked-Inv :
    (s : System) (c : Contents) (p : Ptr) (j k : Job)
    → s.heap p ≡ some j
    → k.next ≡ j.next
    → Inv s c
    → Inv (set_heap s (write s.heap p (some k))) c
relinked-Inv s c p j k e same inv = record { idle = idle'; apart = inv.apart }
  where
    idle' : (x : Place) → IsIdle (write s.heap p (some k)) (s.queues x) (c x)
    idle' x = record {
      free = free;
      list = record {
        links = Links-relinked job_link s.heap (c x) nullptr p j k e same list.links;
        distinct = list.distinct;
        head = list.head;
        tail = list.tail;
        count = list.count;
      };
    }
      where
        open (inv.idle x) use {free, list}
