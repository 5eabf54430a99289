-- ===== src/JobSystem/Worker/Execute.antt =====
-- What one round of `while (l_CurrentJob)` leaves (src/job/job_system.cpp), for a job without a parent.
use bop.Common.{
  ℕ, ◌<◌, ◌≡◌, refl, subst, sym, ap, ◌∙◌, true, false, some, List, [], ◌∷◌, ◌++◌, append-nil, leb,
  ◌==◌, if◌then◌else◌, if_same, inl, inr, Bool-cases, eqb_refl,
}
use bop.Memory.{Ptr, nullptr, Heap, Run, ok, load_lem, Returns, Returns-bind}
use bop.Queue.Shape.{unlinked}
use bop.Job.{Job, job_link, Outcome, Work, no_work, invoke, call, callable}
use bop.JobQueue.{JobQueue}
use bop.JobQueue.Locked.{IsIdle}
use bop.JobSystem.State.{Place, System, Env, Thread, set_thread}
use bop.JobSystem.Inv.{Contents, Inv, NotQueued}
use bop.JobSystem.Complete.{job_completed}
use bop.JobSystem.Complete.Recycle.{IsBounded, recycled}
use bop.JobSystem.Complete.Climb.{job_completed-Completed}
use bop.JobSystem.Complete.Family.{Completed, is_last_part_lem, counted_down}
use bop.JobSystem.Worker.{execute, set_current, store_trace, log_lines}

Inv-view : (s t : System) (c : Contents) → t.heap ≡ s.heap → t.queues ≡ s.queues → Inv s c → Inv t c
Inv-view s t c h q inv = record {
  idle = λ x.
      subst (λ (v : Heap Job). IsIdle v (t.queues x) (c x)) (sym h)
        (subst (λ (f : Place → JobQueue). IsIdle s.heap (f x) (c x)) (sym q) (inv.idle x));
  apart = inv.apart;
}

abbrev pub after_round : ℕ → Ptr → Env → ℕ → Thread
after_round me next e i =
    if me == i
    then record (e.threads me) { no_work_counter = 0; current_job = next }
    else e.threads i

-- The callables that a call of this one runs.
abbrev pub runs : Work → List ℕ
runs no_work = []
runs (callable f) = f ∷ []

-- The callable returned with the members `e`: then the job is recycled, its continuation is next, and
-- the current job of the thread.
pub record Ran (me : ℕ) (K : Env → Env → Type 0) (s : System) (c : Contents) (p : Ptr) (j : Job)
    (r : System × Ptr) : Type 0 where
  pub inv : Inv r.0 (recycled me c p)
  pub next : r.1 ≡ j.continuation
  pub called : r.0.env.called ≡ s.env.called ++ runs j.work
  pub others :
      (a : Ptr) → (a == p) ≡ false → unlinked job_link (r.0.heap a) ≡ unlinked job_link (s.heap a)
  pub members :
      (e : Env) × K s.env e
      × (r.0.env.num_threads ≡ e.num_threads)
      × (r.0.env.num_queues ≡ e.num_queues)
      × ((i : ℕ) → r.0.env.threads i ≡ after_round me j.continuation e i)

module _ (body : ℕ → System → Run (System × Outcome)) (clock : ℕ → System → ℕ) (me : ℕ)
    (K : Env → Env → Type 0)
    (quiet : (f : ℕ) (s : System)
      → Returns
          (λ r.
            (r.0.heap ≡ s.heap)
            × (r.0.queues ≡ s.queues)
            × K s.env r.0.env
            × (r.0.env.called ≡ s.env.called ++ f ∷ []))
          (body f s))
    (idles : (e : Env) → K e e) where
  invoke-quiet :
      (w : Work) (s : System)
      → Returns
          (λ r.
            (r.0.heap ≡ s.heap)
            × (r.0.queues ≡ s.queues)
            × K s.env r.0.env
            × (r.0.env.called ≡ s.env.called ++ runs w))
          (invoke body w s)
  unfolding invoke
  invoke-quiet no_work s = (refl, refl, idles s.env, sym (append-nil s.env.called))
  invoke-quiet (callable f) s = quiet f s

  call-quiet :
      (j : Job) (s : System)
      → Returns
          (λ r.
            (r.0.heap ≡ s.heap)
            × (r.0.queues ≡ s.queues)
            × K s.env r.0.env
            × (r.0.env.called ≡ s.env.called ++ runs j.work))
          (call body j s)
  unfolding call
  call-quiet j s = Returns-bind _ _ (invoke body j.work s) _ (invoke-quiet j.work s) λ r d. d

  pub execute-Ran :
      (fuel : ℕ) (s : System) (c : Contents) (p : Ptr) (j : Job)
      → Inv s c
      → IsBounded me c
      → s.heap p ≡ some j
      → (p == nullptr) ≡ false
      → leb j.num_children 1 ≡ true
      → j.parent ≡ nullptr
      → NotQueued c p
      → 0 < fuel
      → Returns (Ran me K s c p j) (execute body clock fuel me p s)
  unfolding execute
  execute-Ran fuel s c p j inv b e ne last root out enough = rw (load_lem s.heap p j ne e) (
      Returns-bind _ _ (call body j s) _ (call-quiet j s) λ (s1, lines) (h, q, k, ran).
        let s2 =
          store_trace (clock 0 s) (clock 1 s1) (s1.threads me).thread_index (log_lines lines s1) in
        let s3 = set_thread s2 me (record (s2.threads me) { no_work_counter = 0 }) in
        let root' : (j.parent == nullptr) ≡ true = ap (λ a. a == nullptr) root in
        let e3 : s3.heap p ≡ some j = ap (λ v. v p) h ∙ e in
        rw (load_lem s1.heap p j ne e3, root', if_same (j.continuation == nullptr) (ok s3))
          (Returns-bind (Completed me s3 c p []) _ (job_completed fuel me p s3) _
            (job_completed-Completed me fuel s3 c p [] (Inv-view s s3 c h q inv) b
              (j, e3, ne, inr (last, root, out)) enough)
            λ (t, done) d. record {
              inv = Inv-view t (set_current me j.continuation t) (recycled me c p) refl refl (
                  subst (λ v. Inv t (if v then recycled me c p else c))
                    (is_last_part_lem s3.heap p j e3 ∙ last) d.inv);
              next = refl;
              called = ap (λ v. v.called) d.env ∙ ran;
              others = λ a miss. d.fields a ∙ ap (unlinked job_link) (unchanged s3.heap a h miss);
              members = (
                s1.env,
                k,
                ap (λ v. v.num_threads) d.env,
                ap (λ v. v.num_queues) d.env,
                threads_after s1 s2 j.continuation t.env refl d.env,
              );
            }))
    where
      threads_after :
          (s1 s2 : System) (next : Ptr) (e : Env)
          → s2.threads ≡ s1.threads
          → e ≡ (set_thread s2 me (record (s2.threads me) { no_work_counter = 0 })).env
          → (i : ℕ)
          → (if me == i then record (e.threads me) { current_job = next } else e.threads i)
            ≡ after_round me next s1.env i
      threads_after s1 s2 next e same d i = elim (Bool-cases (me == i)) [
        | inl hit ↦ rw (hit, d, eqb_refl me, same)
        | inr miss ↦ rw (miss, d, miss, same)
      ]

      unchanged :
          (g : Heap Job) (a : Ptr)
          → g ≡ s.heap
          → (a == p) ≡ false
          → counted_down (p ∷ []) g a ≡ s.heap a
      unchanged g a h miss = rw miss (ap (λ v. v a) h)
