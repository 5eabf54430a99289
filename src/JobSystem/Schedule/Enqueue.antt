-- ===== src/JobSystem/Schedule/Enqueue.antt =====
-- Where schedule_work puts a job, and the whole of schedule.
use bop.Common.{
  ℕ, ◌+◌, ◌%◌, ◌^◌, ◌≤◌, ◌<◌, ◌≡◌, ◌≢◌, refl, sym, subst, ap, ap₂, ◌∙◌, Bool, true, false, Option,
  none, not, ltb, some, [], ◌∷◌, ◌++◌, arith, first, leb, inc32, ◌==◌, if◌then◌else◌, Bool-cases,
  lt→ltb, inl, inr,
}
use native.Mathlib.Nat.{mod-eq_of_lt, mod_self, mod-lt}
use bop.Memory.{Ptr, nullptr, IsLive, IsLive-of_some, load_lem, Returns, Returns-bind, Returns-mono}
use bop.Queue.Shape.{SameButLinks, unlinked}
use bop.Job.{Job, Work, job_link}
use bop.JobSystem.State.{
  Place, global_queue, local_queue, recycling_bin, System, Env, set_thread, push_at,
}
use bop.JobSystem.Inv.{Contents, Inv, put, NotQueued, PushedAt, push_at-PushedAt}
use bop.JobSystem.Schedule.{is_untagged, next_index, schedule_work, construct, schedule}
use bop.JobSystem.Schedule.Create.{IsFresh, bin_rest, IsFor, construct-Created}

-- The calling thread fits the queue arrays, and its round-robin counter the number of threads.
pub record Fits (me : ℕ) (e : Env) : Type 0 where
  pub some_thread : 0 < e.num_threads
  pub threads : e.num_threads ≤ e.num_queues
  pub queues : e.num_queues < 2 ^ 32
  pub index : (e.threads me).thread_index < e.num_queues
  pub tidx : (e.threads me).tidx < e.num_threads

-- `++tidx; if (tidx >= n) tidx = 0;` is the next number modulo n.
pub next_index-mod : (n i : ℕ) → i < n → n < 2 ^ 32 → next_index n i ≡ (i + 1) % n
next_index-mod n i h small =
    let e : inc32 i ≡ i + 1 = omega arith in
    rw e (elim (Bool-cases (leb n (i + 1))) [
      | inl wraps ↦ let e' : i + 1 ≡ n = ground arith in rw (wraps, e', mod_self)
      | inr fits ↦ let lt : i + 1 < n = ground arith in rw (fits, mod-eq_of_lt lt)
    ])

-- No thread of the pool is asked for: none at all, or one that it does not have.
abbrev pub asks_none : Option ℕ → ℕ → Bool
asks_none none n = true
asks_none (some k) n = not (ltb k n)

is_untagged-asks_none : (t : Option ℕ) (n : ℕ) → is_untagged t n ≡ asks_none t n
is_untagged-asks_none none n = refl
is_untagged-asks_none (some k) n = ground arith

-- Round robin over the global queues, or the caller's own local queue.
abbrev pub destination : ℕ → Option ℕ → Env → Place
destination me thread_index e =
    if asks_none thread_index e.num_threads
    then global_queue (((e.threads me).tidx + 1) % e.num_threads)
    else local_queue (e.threads me).thread_index

-- The members after the call: the round-robin counter of the caller has moved on, or nothing has.
abbrev pub balanced : ℕ → Option ℕ → Env → Env
balanced me thread_index e =
    let th = e.threads me in
    if asks_none thread_index e.num_threads
    then record e {
      threads =
          λ i. if me == i then record th { tidx = (th.tidx + 1) % e.num_threads } else e.threads i;
    }
    else e

pub record Queued (me : ℕ) (work : Ptr) (thread_index : Option ℕ) (s : System) (c : Contents)
    (r : System × Bool) : Type 0 where
  pub inv : let x = destination me thread_index s.env in Inv r.0 (put c x (c x ++ work ∷ []))
  pub fields : SameButLinks job_link s.heap r.0.heap
  pub env : r.0.env ≡ balanced me thread_index s.env
  pub result : r.1 ≡ true

-- What schedule leaves: the job of create_job, with the callable, the parent and the thread that were
-- given, at the back of its queue. The other jobs keep all but their links.
pub record Scheduled (me : ℕ) (fresh : Ptr) (fn : Work) (parent : Ptr) (thread_index : Option ℕ)
    (s : System) (c : Contents) (r : System × Ptr) : Type 0 where
  pub inv :
      let x = destination me thread_index s.env in
      let c1 = bin_rest me c in Inv r.0 (put c1 x (c1 x ++ r.1 ∷ []))
  pub address : r.1 ≡ first (c (recycling_bin me)) fresh
  pub job :
      (j : Job) × IsFor fn parent thread_index j
      × (unlinked job_link (r.0.heap r.1) ≡ unlinked job_link (some j))
  pub others :
      (a : Ptr) → (a == r.1) ≡ false → unlinked job_link (r.0.heap a) ≡ unlinked job_link (s.heap a)
  pub env : r.0.env ≡ balanced me thread_index s.env

module _ (me : ℕ) (s : System) (c : Contents) (inv : Inv s c) (fits : Fits me s.env) where
  schedule_work-Queued :
      (work : Ptr) (j : Job)
      → (work == nullptr) ≡ false
      → s.heap work ≡ some j
      → NotQueued c work
      → Returns (Queued me work j.thread_index s c) (schedule_work me work s)
  unfolding schedule_work
  schedule_work-Queued work j ne found out =
      rw
        (
          load_lem s.heap work j ne found,
          next_index-mod _ _ fits.tidx (omega arith),
          is_untagged-asks_none j.thread_index s.num_threads,
        )
        (elim (Bool-cases (asks_none j.thread_index s.num_threads)) [
          | inl untagged ↦ rw untagged (
              Returns-bind (PushedAt s1 c (global_queue i) work) _
                (push_at (global_queue i) work s1) _
                (push_at-PushedAt s1 c (global_queue i) inv1 (lt→ltb _ _ i_fits) work live out)
                λ t d. record {
                  inv =
                      subst (λ y. Inv t (put c y (c y ++ work ∷ []))) (sym (to_global untagged))
                        d.inv;
                  fields = d.fields;
                  env = rw untagged d.env;
                  result = refl;
                })
          | inr tagged ↦ rw tagged (
              Returns-bind (PushedAt s c x work) _ (push_at x work s) _
                (push_at-PushedAt s c x inv (lt→ltb _ _ fits.index) work live out)
                λ t d. record {
                  inv =
                      subst (λ y. Inv t (put c y (c y ++ work ∷ []))) (sym (to_local tagged)) d.inv;
                  fields = d.fields;
                  env = rw tagged d.env;
                  result = refl;
                })
        ])
    where
      live : IsLive s.heap work
      live = IsLive-of_some s.heap work j ne found

      i : ℕ
      i = ((s.threads me).tidx + 1) % s.num_threads

      x : Place
      x = local_queue (s.threads me).thread_index

      s1 : System
      s1 = set_thread s me (record (s.threads me) { tidx = i })

      inv1 : Inv s1 c
      inv1 = record { idle = inv.idle; apart = inv.apart }

      i_fits : i < s.num_queues
      i_fits = omega (arith, mod-lt ((s.threads me).tidx + 1) fits.some_thread, fits.threads)

      to_global :
          asks_none j.thread_index s.num_threads ≡ true
          → destination me j.thread_index s.env ≡ global_queue i
      to_global e = rw e

      to_local :
          asks_none j.thread_index s.num_threads ≡ false → destination me j.thread_index s.env ≡ x
      to_local e = rw e

module _ (me : ℕ) (fresh : Ptr) (s : System) (c : Contents) (inv : Inv s c) (fits : Fits me s.env)
    (new : IsFresh s fresh) where
  -- In a well-formed pool, on a thread that fits its arrays, schedule returns the job of create_job,
  -- made for the callable, the parent and the thread that were given. It stands at the back of the
  -- next global queue round robin, if no thread or none of the pool was asked for, and else at the
  -- back of the caller's own local queue. No other queue has changed but the recycling bin
  -- that it came from, the other jobs keep all but their links, and the members keep their values but
  -- for the caller's round-robin counter.
  pub schedule-Scheduled :
      (fn : Work) (parent : Ptr) (thread_index : Option ℕ)
      → Returns
          (Scheduled me fresh fn parent thread_index s c)
          (schedule me fresh fn parent thread_index s)
  unfolding schedule
  schedule-Scheduled fn parent thread_index =
      Returns-bind _ _ (construct me fresh fn parent thread_index s) _
        (construct-Created me fresh s c inv new fn parent thread_index)
        λ (t, p) (j, is_for, d).
          let fits' : Fits me t.env = subst (Fits me) (sym d.env) fits in
          Returns-bind (Queued me p j.thread_index t (bin_rest me c)) _ (schedule_work me p t) _
            (schedule_work-Queued me t (bin_rest me c) d.inv fits' p j d.ne_null d.job d.out)
            λ (u, b) q. record {
              inv =
                  subst (λ x. Inv u (put (bin_rest me c) x (bin_rest me c x ++ p ∷ [])))
                    (ap₂ (destination me) is_for.4 d.env) q.inv;
              address = d.address;
              job = (j, is_for, q.fields p ∙ ap (unlinked job_link) d.job);
              others = λ a ne. q.fields a ∙ ap (unlinked job_link) (d.others a ne);
              env = q.env ∙ ap₂ (balanced me) is_for.4 d.env;
            }

  -- In a well-formed pool, on a thread that fits its arrays, a job that asks for another thread of
  -- the pool is put in the local queue of the thread that schedules
  -- it: the local queue of the thread that was asked for does not change.
  pub schedule_misplaced :
      (fn : Work) (parent : Ptr) (k : ℕ)
      → k < s.num_threads
      → k ≢ (s.threads me).thread_index
      → Returns
          (λ (t, p).
            (c' : Contents) × Inv t c'
            × (c' (local_queue (s.threads me).thread_index)
                ≡ c (local_queue (s.threads me).thread_index) ++ p ∷ [])
            × (c' (local_queue k) ≡ c (local_queue k)))
          (schedule me fresh fn parent (some k) s)
  schedule_misplaced fn parent k exists other =
      Returns-mono (Scheduled me fresh fn parent (some k) s c) _
        (schedule me fresh fn parent (some k) s) (schedule-Scheduled fn parent (some k))
        λ (t, p) d. (
          _,
          subst (λ x. Inv t (put (bin_rest me c) x (bin_rest me c x ++ p ∷ []))) own d.inv,
          ground arith,
          ground arith,
        )
    where
      own : destination me (some k) s.env ≡ local_queue (s.threads me).thread_index
      own = ground arith
