-- ===== src/JobSystem/Worker/Round.antt =====
-- A whole round of the main loop of a worker (src/job/job_system.cpp): it finds a job, executes it with
-- its continuations, and may clear its garbage bin.
use bop.Common.{
  ℕ, ◌<◌, ◌≡◌, sym, subst, List, [], arith, first, length, ltb, inc32, ap₂, ap, ◌∙◌, ◌++◌, refl,
  Bool-cases, inl, inr, ◌⊎◌,
}
use bop.Memory.{Ptr, nullptr, Run, Returns, Returns-bind}
use bop.Queue
use bop.Queue.Shape.{empty-IsQueue}
use bop.JobQueue.{JobQueue}
use bop.Job.{job_link, Outcome}
use bop.JobSystem.State.{garbage_bin, Env, System, set_queue}
use bop.JobSystem.Inv.{Contents, Inv, put, replaced-Inv}
use bop.JobSystem.Complete.{clear_at}
use bop.JobSystem.Complete.Recycle.{IsBounded}
use bop.JobSystem.Worker.{pick_job, execute_all, collect, worker_round}
use bop.JobSystem.Worker.Steal.{steal_rounds}
use bop.JobSystem.Worker.Pick.{picked, left_behind, Picked, IsFitting, pick_job-Picked}
use bop.JobSystem.Worker.Chain.{Chain, IsQuiet, recycled_all, runs_of, execute_all-Chain}

-- The garbage bin is left as it is, or emptied.
abbrev pub IsCollected : ℕ → Contents → System → Type 0
IsCollected me c t = Inv t c ⊎ Inv t (put c (garbage_bin me) [])

pub collect-IsCollected :
    (me : ℕ) (s : System) (c : Contents)
    → Inv s c
    → Returns (λ t. IsCollected me c t × (t.env.called ≡ s.env.called)) (collect me s)
unfolding collect clear_at Queue.clear
collect-IsCollected me s c inv =
    elim (Bool-cases (ltb 256 (inc32 (s.threads me).no_work_counter))) [
      | inl late ↦
          rw late (inr (record { idle = bin_cleared.idle; apart = bin_cleared.apart }), refl)
      | inr early ↦ rw early (inl (record { idle = inv.idle; apart = inv.apart }), refl)
    ]
  where
    bin : JobQueue
    bin = s.queues (garbage_bin me)

    bin_cleared :
        Inv
          (set_queue s (garbage_bin me) (record bin { list = (Queue.clear bin.list).0 }))
          (put c (garbage_bin me) [])
    bin_cleared =
        replaced-Inv s c (garbage_bin me) _ [] inv
          (record { free = (inv.idle (garbage_bin me)).free; list = empty-IsQueue job_link s.heap })
          (λ p m. cc)

module _ (body : ℕ → System → Run (System × Outcome)) (clock : ℕ → System → ℕ)
    (quiet : IsQuiet body) (fuel me : ℕ) where
  -- In a well-formed pool, on a thread that fits its arrays, let the next job that a worker finds be
  -- the head of a chain of continuations without parents, each on its last part and in no queue, or let
  -- it find none. With fuel for the loop that steals and more than one unit for each job of the chain, and
  -- callables that return, leave the pool alone and record that they have run, a round returns. The callables of
  -- the chain have run then, in order and each once; their jobs are recycled, and but for that the round only takes the first one out of its queue, and
  -- forgets the jobs in the garbage bin of the worker, if at all.
  pub worker_round-Chain :
      (s : System) (c : Contents) (ps : List Ptr)
      → Inv s c
      → (s.threads me).thread_index ≡ me
      → IsFitting fuel me s.env
      → me < s.num_queues
      → steal_rounds s.num_threads < fuel
      → length ps < fuel
      → picked me s.env c ≡ first ps nullptr
      → Chain s.heap (left_behind me s.env c) ps
      → IsBounded me (left_behind me s.env c)
      → Returns
          (λ (t, jobs).
            (jobs ≡ ps)
            × IsCollected me (recycled_all me (left_behind me s.env c) ps) t
            × (t.env.called ≡ s.env.called ++ runs_of s.heap ps))
          (worker_round body clock fuel me s)
  unfolding worker_round
  worker_round-Chain s c ps inv index fits own enough longer next chain bounded =
      Returns-bind (Picked me s (picked me s.env c) (left_behind me s.env c)) _ (pick_job fuel me s)
        _ (pick_job-Picked fuel me s c inv index fits own enough (omega (arith, enough)))
        λ (s1, job) d.
          rw (d.job, next)
            (Returns-bind
              (λ (t, jobs).
                (jobs ≡ ps)
                × Inv t (recycled_all me (left_behind me s.env c) ps)
                × (t.env.called ≡ s1.env.called ++ runs_of s1.heap ps))
              _ (execute_all body clock fuel me (first ps nullptr) s1) _
              (execute_all-Chain body clock quiet me fuel s1 (left_behind me s.env c) ps d.inv
                bounded (subst (λ h. Chain h (left_behind me s.env c) ps) (sym d.heap) chain)
                longer)
              λ (s2, jobs) (same, inv2, ran).
                Returns-bind
                  (λ t.
                    IsCollected me (recycled_all me (left_behind me s.env c) ps) t
                    × (t.env.called ≡ s2.env.called))
                  _ (collect me s2) _ (collect-IsCollected me s2 _ inv2)
                  λ s3 (i, kept). (
                    same,
                    i,
                    kept
                        ∙ ran
                        ∙ ap₂ (λ xs h. xs ++ runs_of h ps) (ap (λ (v : Env). v.called) d.members.2)
                            d.heap,
                  ))
