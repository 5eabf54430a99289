-- ===== src/Application/Demo/Main.antt =====
-- The jobs of main (src/main.cpp): a chain of continuations, the last of which shuts the pool down.
use bop.Common.{
  ℕ, ◌≡◌, ◌<◌, refl, sym, subst, ap, ap₂, ◌∙◌, true, Option, none, some, List, [], ◌∷◌, ◌++◌, arith,
  first, tail, length, Distinct, leb, ◌+◌, lt→ltb, Bool-cases, inl, inr, mem-append,
}
use native.Mathlib.Nat.{mod-lt}
use bop.Memory.{Ptr, nullptr, Heap, Run, ok, ◌>>=◌, Returns, Returns-bind, Returns-mono}
use bop.Queue.Shape.{unlinked}
use bop.Job.{Job, Work, job_link, Outcome}
use bop.JobSystem.State.{Place, recycling_bin, same_place, System, Env, pop_at, in_range}
use bop.JobSystem.Inv.{
  Contents, Inv, put, put_self, NotQueued, same_place_eq, same_place_refl, PoppedAt,
  pop_at-PoppedAt,
}
use bop.JobSystem.Schedule.{schedule}
use bop.JobSystem.Schedule.Create.{fresh-NotQueued}
use bop.JobSystem.Schedule.Enqueue.{Fits, Scheduled, destination, schedule-Scheduled}
use bop.JobSystem.Complete.Deallocate.{put-put}
use bop.JobSystem.Complete.Recycle.{IsBounded}
use bop.JobSystem.Worker.{execute_all}
use bop.JobSystem.Worker.Chain.{Chain, IsQuiet, relinked, runs_at, runs_of, execute_all-Chain}
use bop.JobSystem.Worker.Execute.{runs}
use bop.Application.Demo.{
  then_all, addresses, all_runs, AllFresh, AllFresh-same, Attached, then_all-Attached,
  same_contents,
}

-- `bop::schedule(fn).then(...)...`, of which the result is not used.
unfoldable pub main_jobs : ℕ → Ptr → Work → List (Ptr × Work) → System → Run System
main_jobs me fresh fn rest s = do
  (s1, job) ← schedule me fresh fn nullptr none s
  then_all me job rest s1

-- The thread `me` runs main; then a worker `w` takes the front of the queue `x` and executes it.
unfoldable pub main_executed :
    (body : ℕ → System → Run (System × Outcome)) (clock : ℕ → System → ℕ) (w fuel me : ℕ)
    (fresh : Ptr) (fn : Work) (rest : List (Ptr × Work)) (x : Place)
    → System
    → Run System
unfolding main_jobs
main_executed body clock w fuel me fresh fn rest x s = do
  s1 ← main_jobs me fresh fn rest s
  (s2, job) ← pop_at x s1
  (s3, executed) ← execute_all body clock fuel w job s2
  ok s3

none_unlinked : (o : Option Job) → unlinked job_link o ≡ none → o ≡ none
none_unlinked none e = refl
none_unlinked (some j) e = cc

-- A chain stays one for contents that hold less.
Chain-less :
    (h : Heap Job) (c d : Contents) (ps : List Ptr)
    → ((p : Ptr) → NotQueued c p → NotQueued d p)
    → Chain h c ps
    → Chain h d ps
Chain-less h c d [] less chain = tt
Chain-less h c d (p ∷ ps) less (job, ne, out, apart, chain) =
    (job, ne, less p out, apart, Chain-less h c d ps less chain)

module _ (me : ℕ) (fresh : Ptr) (fn : Work) (rest : List (Ptr × Work)) (s : System) (c : Contents)
    (inv : Inv s c) (fits : Fits me s.env) (empty : c (recycling_bin me) ≡ [])
    (new : AllFresh s (fresh ∷ addresses rest)) (distinct : Distinct (fresh ∷ addresses rest)) where
  -- The queue that takes the first job.
  abbrev queue : Place
  queue = destination me none s.env

  abbrev with_job : Contents
  with_job = put c queue (c queue ++ fresh ∷ [])

  record Made (t : System) : Type 0 where
    queued : Inv t with_job
    num_queues : t.num_queues ≡ s.num_queues
    chain : Chain t.heap c (fresh ∷ addresses rest)
    called : t.env.called ≡ s.env.called
    works : runs_of t.heap (fresh ∷ addresses rest) ≡ runs fn ++ all_runs rest

  bin_empty : with_job (recycling_bin me) ≡ []
  bin_empty = empty

  less : (p : Ptr) → NotQueued with_job p → NotQueued c p
  less p out y = elim (Bool-cases (same_place queue y)) [
    | inl hit ↦ ground (
      arith,
      mem-append p (c queue) (fresh ∷ []),
      rw hit at (out y),
      ap c (same_place_eq queue y hit),
    )
    | inr miss ↦ rw miss at (out y)
  ]

  chained :
      (s1 : System)
      → Scheduled me fresh fn nullptr none s c (s1, fresh)
      → Returns Made (then_all me fresh rest s1)
  chained s1 d =
      let (j, is_for, there) = d.job in
      let (k, found, parts, no_parent, no_continuation, its) = relinked j (s1.heap fresh) there in
      let queued1 : Inv s1 with_job =
        subst (λ x. Inv s1 (put x queue (x queue ++ fresh ∷ []))) (same_contents me c empty)
          d.inv in
      Returns-mono (Attached s1 with_job fresh k (addresses rest) (all_runs rest)) Made
        (then_all me fresh rest s1)
        (then_all-Attached me with_job bin_empty rest s1 fresh k queued1
          (AllFresh-same s s1 fresh (addresses rest)
            (λ a apart free.
              none_unlinked (s1.heap a) (d.others a apart ∙ ap (unlinked job_link) free))
            distinct.0 new.1)
          distinct.1 found (no_continuation ∙ is_for.2) new.0.0)
        λ t e. record {
          queued = e.inv;
          num_queues = ap (λ x. x.num_queues) (e.env ∙ d.env);
          chain = (
            (
              record k { continuation = first (addresses rest) nullptr },
              e.head,
              ap (λ m. leb m 1) (parts ∙ is_for.0),
              no_parent ∙ is_for.1,
              refl,
            ),
            new.0.0,
            fresh-NotQueued s c fresh inv new.0.1,
            distinct.0,
            Chain-less t.heap with_job c (addresses rest) less e.chain,
          );
          called = ap (λ x. x.called) (e.env ∙ d.env);
          works = ap₂ (λ xs ys. xs ++ ys) (ap runs_at e.head ∙ ap runs (its ∙ is_for.5)) e.runs;
        }

  main_jobs-Made : Returns Made (main_jobs me fresh fn rest s)
  unfolding main_jobs
  main_jobs-Made =
      Returns-bind (Scheduled me fresh fn nullptr none s c) _ (schedule me fresh fn nullptr none s)
        _ (schedule-Scheduled me fresh s c inv fits new.0 fn nullptr none)
        λ (s1, job) d0.
          let same : job ≡ fresh = d0.address ∙ ap (λ l. first l fresh) empty in
          let d : Scheduled me fresh fn nullptr none s c (s1, fresh) =
            subst (λ q. Scheduled me fresh fn nullptr none s c (s1, q)) same d0 in
          subst (λ q. Returns Made (then_all me q rest s1)) (sym same) (chained s1 d)

  in_range_at : (t : System) → t.num_queues ≡ s.num_queues → in_range t queue ≡ true
  in_range_at t same =
      lt→ltb _ _
        (omega (arith, same, mod-lt ((s.threads me).tidx + 1) fits.some_thread, fits.threads))

  only : c queue ≡ [] → with_job queue ≡ fresh ∷ []
  only none_there = rw (same_place_refl queue, none_there) refl

  -- The contents once the job is taken.
  back : c queue ≡ [] → put with_job queue (tail (with_job queue)) ≡ c
  back none_there =
      ap (λ l. put with_job queue (tail l)) (only none_there)
      ∙ put-put c queue (c queue ++ fresh ∷ []) []
      ∙ put_self c queue [] none_there

  module _ (body : ℕ → System → Run (System × Outcome)) (clock : ℕ → System → ℕ)
      (quiet : IsQuiet body) (w fuel : ℕ) where
    -- In a well-formed pool let main schedule a job and attach a chain of continuations to it, while
    -- the queue that takes the job is empty, and so is the recycling bin of the thread of main. If a worker
    -- takes the job when the chain is complete, and the callables return, leave the pool alone and record that they
    -- have run, then the callables that main passed to schedule and to then have run, in that order and
    -- each once, and no other.
    pub main_executed-all_runs :
        c queue ≡ []
        → IsBounded w c
        → length (fresh ∷ addresses rest) < fuel
        → Returns
            (λ t. t.env.called ≡ s.env.called ++ (runs fn ++ all_runs rest))
            (main_executed body clock w fuel me fresh fn rest queue s)
    unfolding main_executed
    main_executed-all_runs none_there bounded enough =
        Returns-bind Made _ (main_jobs me fresh fn rest s) _ main_jobs-Made λ s1 d.
          Returns-bind (PoppedAt s1 with_job queue) _ (pop_at queue s1) _
            (pop_at-PoppedAt s1 with_job queue d.queued (in_range_at s1 d.num_queues))
            λ (s2, job) e.
              let front : job ≡ fresh = e.job ∙ ap (λ l. first l nullptr) (only none_there) in
              rw front (
                Returns-bind _ _ (execute_all body clock fuel w fresh s2) _
                  (execute_all-Chain body clock quiet w fuel s2 c (fresh ∷ addresses rest)
                    (subst (Inv s2) (back none_there) e.inv) bounded
                    (subst (λ h. Chain h c (fresh ∷ addresses rest)) (sym e.heap) d.chain) enough)
                  λ (s3, executed) (all, i, ran).
                    ran
                    ∙ ap₂ (λ xs ys. xs ++ ys) (ap (λ (v : Env). v.called) e.env ∙ d.called)
                        (ap (λ h. runs_of h (fresh ∷ addresses rest)) e.heap ∙ d.works))
