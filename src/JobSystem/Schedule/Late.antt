-- ===== src/JobSystem/Schedule/Late.antt =====
-- A continuation that is attached too late: Job::then (src/job/job.inl) on a job that a worker has
-- already executed and recycled, as in main (src/main.cpp) if the pool is faster.
use bop.Common.{
  ℕ, ◌≡◌, sym, subst, ap, ◌∙◌, true, false, Option, some, List, [], ◌∷◌, arith, first, mem,
  mem_self, ◌==◌, eqb_sym, tail, Bool-cases, inl, inr,
}
use mathlib.Core.Bool.{false≢true}
use bop.Memory.{Ptr, nullptr, Run, ok, ◌>>=◌, IsLive-cases, Returns, Returns-bind}
use bop.Job.{Job, Work}
use bop.JobSystem.State.{recycling_bin, same_place, System}
use bop.JobSystem.Inv.{Contents, Inv, NotQueued, queued-IsLive}
use bop.JobSystem.Schedule.{create_job, then_job}
use bop.JobSystem.Schedule.Create.{IsFresh, bin_rest, fresh-NotQueued, create_job-Created}
use bop.JobSystem.Schedule.Continue.{Chained, then_job_lem, live_ne_fresh, eqb-first}

-- The thread `me` calls `then` on `job`, and then the worker `w` makes its next job.
pub then_late :
    (me w : ℕ) (fresh fresh' job : Ptr) (fn : Work) (thread_index : Option ℕ)
    → System
    → Run (System × Ptr × Ptr)
then_late me w fresh fresh' job fn thread_index s = do
  (s1, next) ← then_job me fresh job fn thread_index s
  (s2, again) ← create_job w fresh' s1
  ok (s2, next, again)

mem_of_tail : (p : Ptr) (ps : List Ptr) → mem p ps ≡ false → mem p (tail ps) ≡ false
mem_of_tail p [] out = out
mem_of_tail p (q ∷ ps) out = ground arith

bin_rest-NotQueued : (w : ℕ) (c : Contents) (p : Ptr) → NotQueued c p → NotQueued (bin_rest w c) p
bin_rest-NotQueued w c p out x = elim (Bool-cases (same_place (recycling_bin w) x)) [
  | inl hit ↦ rw hit (mem_of_tail p (c (recycling_bin w)) (out (recycling_bin w)))
  | inr miss ↦ rw miss (out x)
]

module _ (me w : ℕ) (fresh fresh' : Ptr) (s : System) (c : Contents) (inv : Inv s c)
    (new : IsFresh s fresh) (new' : IsFresh s fresh') (two : (fresh' == fresh) ≡ false)
    (others : (me == w) ≡ false) where
  -- A job of the recycling bin of `w`, the front of it.
  module _ (job : Ptr) (ps : List Ptr) (e : c (recycling_bin w) ≡ job ∷ ps) where
    there : mem job (c (recycling_bin w)) ≡ true
    there = rw e (mem_self job ps)

    -- The bin of `w` is not the one of `me`.
    kept : bin_rest me c (recycling_bin w) ≡ c (recycling_bin w)
    kept = rw others

    out : mem job (c (recycling_bin me)) ≡ false
    out = elim (Bool-cases (mem job (c (recycling_bin me)))) [
      | inl both ↦
          absurd (
            false≢true (sym others ∙ inv.apart (recycling_bin me) (recycling_bin w) job both there))
      | inr apart ↦ apart
    ]

    ne_job : (j : Job) → s.heap job ≡ some j → (fresh' == job) ≡ false
    ne_job j found = eqb_sym job fresh' (live_ne_fresh me fresh' s c inv new' job j found)

    ne_next : (fresh' == first (c (recycling_bin me)) fresh) ≡ false
    ne_next =
        eqb-first fresh' fresh (c (recycling_bin me))
          (fresh-NotQueued s c fresh' inv new'.1 (recycling_bin me)) two

    -- Let a worker `w` have executed a job and recycled it, and let it be the front of its bin. If
    -- another thread then attaches a continuation to it, the next job that `w` makes is that job again,
    -- with no continuation: nothing leads from it to the job that was attached, which is in no queue.
    pub then_late_lost :
        (fn : Work) (thread_index : Option ℕ)
        → Returns
            (λ (t, next, again).
              (again ≡ job)
              × ((j : Job) × (t.heap job ≡ some j) × (j.continuation ≡ nullptr))
              × Inv t (bin_rest w (bin_rest me c))
              × NotQueued (bin_rest w (bin_rest me c)) next)
            (then_late me w fresh fresh' job fn thread_index s)
    unfolding then_late
    then_late_lost fn thread_index =
        let live = queued-IsLive s c (recycling_bin w) job inv there in
        let (j, found) = IsLive-cases s.heap job live in
        Returns-bind (Chained me fresh s c job j fn thread_index) _
          (then_job me fresh job fn thread_index s) _
          (then_job_lem me fresh s c inv new job j fn thread_index found live.0 out)
          λ (s1, next) d.
            Returns-bind _ _ (create_job w fresh' s1) _
              (create_job-Created w fresh' s1 (bin_rest me c) d.inv
                (new'.0, d.others fresh' (ne_job j found) (rw d.address ne_next) ∙ new'.1))
              λ (s2, again) (k, is_new, m).
                let same : again ≡ job = m.address ∙ ap (λ l. first l fresh') (kept ∙ e) in
                (
                  same,
                  (k, subst (λ p. s2.heap p ≡ some k) same m.job, is_new.2),
                  m.inv,
                  bin_rest-NotQueued w (bin_rest me c) next d.out,
                )
