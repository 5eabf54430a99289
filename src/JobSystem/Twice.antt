-- ===== src/JobSystem/Twice.antt =====
-- A job that is recycled twice: recycle and create_job (src/job/job_system.cpp) on the list of the
-- recycling bin (src/job/job_queue.cpp).
use bop.Common.{
  ℕ, ◌≡◌, refl, sym, subst, ap, ap₂, ◌∙◌, true, ◌++◌, some, [], ◌∷◌, arith, ◌==◌, leb, eqb_refl,
  is_some, if_same,
}
use bop.Memory.{
  Ptr, nullptr, Heap, Run, ok, ◌>>=◌, write, write_self, load_lem, IsLive, IsLive-cases,
  IsLive-of_some, Returns, Returns-bind,
}
use bop.Queue
use bop.Queue.{IntrusiveList, Linked}
use bop.Queue.Links.{next_at, next_at_lem}
use bop.Queue.Shape.{IsQueue, IsLive-same}
use bop.Job.{Job, job_link, reset}
use bop.JobSystem.State.{System, push_on, recycling_bin, push_at, pop_at}
use bop.JobSystem.Inv.{Contents, Inv, NotQueued}
use bop.JobSystem.Schedule.{create_job}
use bop.JobSystem.Complete.{recycle, recycling_capacity}
use bop.JobSystem.Complete.Recycle.{Recycled, recycled, recycle-Recycled}

-- Two calls of recycle for `p`, then two jobs are asked for.
pub recycle_twice : ℕ → Ptr → Ptr → Ptr → System → Run (Ptr × Ptr)
recycle_twice me p fresh fresh' s = do
  s1 ← recycle me p s
  s2 ← recycle me p s1
  (s3, a) ← create_job me fresh s2
  (s4, b) ← create_job me fresh' s3
  ok (a, b)

-- A list whose only node `p` is its head, and links to `next`.
record Loops (p next : Ptr) (h : Heap Job) (l : IntrusiveList) : Type 0 where
  live : IsLive h p
  head : l.head ≡ p
  link : next_at job_link h p ≡ next

push_again :
    (h : Heap Job) (l : IntrusiveList) (p : Ptr)
    → IsLive h p
    → l.head ≡ p
    → l.tail ≡ p
    → Returns (λ r. Loops p p r.0 r.1) (Queue.push job_link h l p)
unfolding Queue.push
push_again h l p live head tail =
    let (n, e) = IsLive-cases h p live in
    let n1 = job_link.set_next n nullptr in
    let h1 = write h p (some n1) in
    let at1 : h1 p ≡ some n1 = write_self h p (some n1) in
    let n2 = job_link.set_next n1 p in
    let at2 : write h1 p (some n2) p ≡ some n2 = write_self h1 p (some n2) in
    rw (load_lem h p n live.0 e, tail, live.0, load_lem h1 p n1 live.0 at1)
      (record {
        live = IsLive-of_some (write h1 p (some n2)) p n2 live.0 at2;
        head = rw head (if_same (p == nullptr) p);
        link = next_at_lem job_link (write h1 p (some n2)) p n2 at2;
      })

push_at-Loops :
    (me : ℕ) (p : Ptr) (s : System)
    → IsLive s.heap p
    → (s.queues (recycling_bin me)).list.head ≡ p
    → (s.queues (recycling_bin me)).list.tail ≡ p
    → Returns
        (λ t. Loops p p t.heap (t.queues (recycling_bin me)).list)
        (push_at (recycling_bin me) p s)
unfolding push_at push_on
push_at-Loops me p s live head tail =
    Returns-bind (λ r. Loops p p r.0 r.1.list) _
      (push_on (recycling_bin me) s.heap (s.queues (recycling_bin me)) p) _
      (Returns-bind (λ r. Loops p p r.0 r.1) _
        (Queue.push job_link s.heap (s.queues (recycling_bin me)).list p) _
        (push_again s.heap (s.queues (recycling_bin me)).list p live head tail) λ r d. d)
      λ r d. rw (eqb_refl me) d

-- The pop of such a list brings `p`, and leaves it at the head again.
module _ (me : ℕ) (p next fresh : Ptr) (s : System)
    (loops : Loops p next s.heap (s.queues (recycling_bin me)).list) where
  create_job-Loops :
      Returns
        (λ (t, a).
          (a ≡ p)
          × ((t.queues (recycling_bin me)).list.head ≡ next)
          × IsLive t.heap p
          × (next_at job_link t.heap p ≡ nullptr))
        (create_job me fresh s)
  unfolding create_job pop_at Queue.pop reset
  create_job-Loops =
      let (n, e) = IsLive-cases s.heap p loops.live in
      let at : write s.heap p (some (reset n)) p ≡ some (reset n) =
        write_self s.heap p (some (reset n)) in
      simp (loops.head, loops.live.0, load_lem s.heap p n loops.live.0 e)
        (
          refl,
          rw (eqb_refl me) (sym (next_at_lem job_link s.heap p n e) ∙ loops.link),
          (refl, ap is_some at),
          next_at_lem job_link (write s.heap p (some (reset n))) p (reset n) at,
        )

-- A job that is recycled twice is handed out twice: in a well-formed pool in which no queue holds it,
-- with an empty recycling bin before, the next two calls of create_job both return it, whatever addresses
-- the memory resource has to offer.
pub recycle_twice_aliases :
    (me : ℕ) (p fresh fresh' : Ptr) (s : System) (c : Contents)
    → Inv s c
    → c (recycling_bin me) ≡ []
    → IsLive s.heap p
    → NotQueued c p
    → Returns (λ r. r ≡ (p, p)) (recycle_twice me p fresh fresh' s)
unfolding recycle_twice recycle
recycle_twice_aliases me p fresh fresh' s c inv none_there live out =
    Returns-bind (Recycled me s c p) _ (recycle me p s) _
      (recycle-Recycled me s c p inv (rw none_there (omega arith)) live out)
      λ s1 d1.
        Returns-bind (λ s2. Loops p p s2.heap (s2.queues (recycling_bin me)).list) _
          (recycle me p s1) _
          (again s1
            (subst (IsQueue job_link s1.heap _) one_there (d1.inv.idle (recycling_bin me)).list)
            (IsLive-same job_link s.heap s1.heap p d1.fields live))
          λ s2 l2.
            Returns-bind _ _ (create_job me fresh s2) _ (create_job-Loops me p p fresh s2 l2)
              λ (s3, a) (first, head, live3, link).
                Returns-bind _ _ (create_job me fresh' s3) _
                  (create_job-Loops me p nullptr fresh' s3
                    (record { live = live3; head = head; link = link }))
                  λ (s4, b) (second, head', live', link'). ap₂ (λ x y. (x, y)) first second
  where
    one_there : recycled me c p (recycling_bin me) ≡ p ∷ []
    one_there = rw (none_there, eqb_refl me) (ap (λ l. l ++ p ∷ []) none_there)

    again :
        (s1 : System)
        → IsQueue job_link s1.heap (s1.queues (recycling_bin me)).list (p ∷ [])
        → IsLive s1.heap p
        → Returns (λ s2. Loops p p s2.heap (s2.queues (recycling_bin me)).list) (recycle me p s1)
    again s1 q live1 =
        let small : leb (s1.queues (recycling_bin me)).list.num_entries recycling_capacity ≡ true =
          ground (arith, q.count) in
        rw small (push_at-Loops me p s1 live1 q.head q.tail)
