-- ===== src/JobSystem/History/Reached.antt =====
-- What any history of the pool keeps (src/job/job_system.cpp, job_system.inl, job.inl).
use bop.Common.{ℕ, ◌<◌, ◌^◌, Option, ◌≡◌, refl, sym, ap, ◌∙◌, true, false, [], mem, eqb_refl}
use bop.Memory.{Ptr, nullptr, Heap, Run, ok, fault, stuck, aborted, Returns, Returns-mono}
use bop.Job.{Job, Outcome}
use bop.JobSystem.Start.{num_workers}
use bop.JobSystem.State.{System}
use bop.JobSystem.Inv.{Contents}
use bop.JobSystem.Schedule.{schedule, then_job}
use bop.JobSystem.Worker.{pick_job, execute, collect}
use bop.JobSystem.History.{
  Pool, added, done, after, current_job, new_pool, Step, starts, schedules, thens, picks, executes,
  collects, Reachable, start, later,
}
use bop.JobSystem.History.Ledger.{Status, nowhere}
use bop.JobSystem.History.Ledger.Erase.{mem-erase_self}
use bop.JobSystem.History.Account.{
  IsAccounted, same-IsAccounted, added-IsAccounted, ran-IsAccounted,
}
use bop.JobSystem.Start.{job_system, worker_start}
use bop.JobSystem.Worker.Execute.{runs}
use bop.JobSystem.Worker.Chain.{runs_at}
use bop.JobSystem.History.Ledger.Statuses.{held-is_pending}
use bop.JobSystem.History.Sound.{IsSound}
use bop.JobSystem.History.Starts.{new-IsSound, start-IsSound}
use bop.JobSystem.History.Adds.{schedule-IsSound, then-IsSound}
use bop.JobSystem.History.Works.Picks.{pick-IsSound}
use bop.JobSystem.History.Works.Executes.{IsCalm, execute-IsSound}
use bop.JobSystem.History.Works.Collects.{collect-IsSound}

-- Each step has returned; each pending job can be executed and is in exactly one place, its status; and
-- each callable that was asked for has run, or its job is pending, as often as it was asked for.
pub record IsKept (p : Pool) : Type 0 where
  pub contents : Contents
  pub status : Ptr → Status
  pub rank : Ptr → ℕ
  pub sound : IsSound p.system contents status rank p.pending
  pub intact : p.failed ≡ false
  pub accounted : IsAccounted p.asked p.system p.pending

after-IsKept :
    {A : Type 0} (r : Run A) (go : A → Pool → Pool) (p : Pool)
    → Returns (λ a. IsKept (go a p)) r
    → IsKept (after r go p)
after-IsKept (ok a) go p d = d
after-IsKept fault go p d = absurd d
after-IsKept stuck go p d = absurd d
after-IsKept aborted go p d = absurd d

module _ (body : ℕ → System → Run (System × Outcome)) (clock : ℕ → System → ℕ)
    (calm : IsCalm body) where
  Step-IsKept : (p q : Pool) → IsKept p → Step body clock p q → IsKept q
  unfolding worker_start
  Step-IsKept p _ k (starts me _ lt) = record {
    contents = k.contents;
    status = k.status;
    rank = k.rank;
    sound = start-IsSound me p.system k.contents k.status k.rank p.pending k.sound lt;
    intact = k.intact;
    accounted =
        same-IsAccounted p.asked p.system (worker_start me p.system) p.pending refl (λ a m. refl)
          k.accounted;
  }
  Step-IsKept p _ k (schedules me fresh fn thread_index _ new) = after-IsKept _ (added fn) p (
      Returns-mono _ _ (schedule me fresh fn nullptr thread_index p.system)
        (schedule-IsSound me fresh p.system k.contents k.status k.rank p.pending k.sound new fn
          thread_index)
        λ (s, job) (d, gains). record {
          contents = _;
          status = _;
          rank = _;
          sound = d;
          intact = k.intact;
          accounted =
              added-IsAccounted p.asked (runs fn) p.system s job p.pending gains k.accounted;
        })
  Step-IsKept p _ k (thens me fresh job fn thread_index _ new waiting last) =
      after-IsKept _ (added fn) p (
        Returns-mono _ _ (then_job me fresh job fn thread_index p.system)
          (then-IsSound me fresh p.system k.contents k.status k.rank p.pending k.sound new job fn
            thread_index (sym (k.sound.ledger.listed job) ∙ waiting) last)
          λ (s, next) (d, gains). record {
            contents = _;
            status = _;
            rank = _;
            sound = d;
            intact = k.intact;
            accounted =
                added-IsAccounted p.asked (runs fn) p.system s next p.pending gains k.accounted;
          })
  Step-IsKept p _ k (picks fuel me _ index free enough) =
      after-IsKept _ (λ r q. record q { system = r.0 }) p
        (Returns-mono _ _ (pick_job fuel me p.system)
          (pick-IsSound fuel me p.system k.contents k.status k.rank p.pending k.sound index free
            enough)
          λ r (c, st, d, called, heap). record {
            contents = c;
            status = st;
            rank = k.rank;
            sound = d;
            intact = k.intact;
            accounted =
                same-IsAccounted p.asked p.system r.0 p.pending called
                  (λ a m. ap (λ h. runs_at (h a)) heap) k.accounted;
          })
  Step-IsKept p _ k (executes fuel me _ busy enough) = after-IsKept _ (done (current_job me p)) p (
      Returns-mono _ _ (execute body clock fuel me (current_job me p) p.system)
        (execute-IsSound body clock calm fuel me p.system k.contents k.status k.rank p.pending
          k.sound busy enough)
        λ r (d, called, others). record {
          contents = _;
          status = _;
          rank = k.rank;
          sound = d;
          intact = k.intact;
          accounted =
              let job = current_job me p in
              let there : mem job p.pending ≡ true =
                k.sound.ledger.listed job
                ∙ held-is_pending (k.status job) me
                    (sym (k.sound.ledger.holding me job busy) ∙ eqb_refl job) in
              ran-IsAccounted p.asked p.system r.0 job p.pending there
                (mem-erase_self job p.pending k.sound.ledger.distinct) called others k.accounted;
        })
  Step-IsKept p _ k (collects me _) =
      after-IsKept _ (λ s q. record q { system = s }) p
        (Returns-mono _ _ (collect me p.system)
          (collect-IsSound me p.system k.contents k.status k.rank p.pending k.sound)
          λ s (c, st, d, called, heap). record {
            contents = c;
            status = st;
            rank = k.rank;
            sound = d;
            intact = k.intact;
            accounted =
                same-IsAccounted p.asked p.system s p.pending called
                  (λ a m. ap (λ h. runs_at (h a)) heap) k.accounted;
          })

  Reachable-IsKept : (p q : Pool) → IsKept p → Reachable body clock p q → IsKept q
  Reachable-IsKept p _ k start = k
  Reachable-IsKept p _ k (later {q} {r} way step) =
      Step-IsKept q r (Reachable-IsKept p q k way) step

new_pool-IsKept :
    (hardware now : ℕ) (num_threads : Option ℕ) (memory_resource : Ptr) (h : Heap Job)
    → num_workers hardware num_threads < 2 ^ 32
    → IsKept (new_pool hardware now num_threads memory_resource h)
unfolding job_system
new_pool-IsKept hardware now num_threads memory_resource h small = record {
  contents = λ x. [];
  status = λ a. nowhere;
  rank = λ a. 0;
  sound = new-IsSound hardware now num_threads memory_resource h small;
  intact = refl;
  accounted = λ f. refl;
}

-- A JobSystem is constructed, for fewer than 2 ^ 32 workers, and then its threads start, schedule jobs without a parent, attach
-- continuations to pending jobs that have none, take jobs out of their queues, execute them and clear
-- their garbage bins, in any number and in any order; the callables return, leave the pool alone and record that they have run, and the
-- memory resource offers unused addresses. Then no such operation fails. A job that is still to be
-- executed is in exactly one place: in one queue, the current job of one thread, or
-- the continuation of one job that is still to be executed. Each callable has run as often as it was passed to
-- schedule and to then, less the number of jobs with it that are still to be executed.
pub history-IsKept :
    (body : ℕ → System → Run (System × Outcome)) (clock : ℕ → System → ℕ) (hardware now : ℕ)
    (num_threads : Option ℕ) (memory_resource : Ptr) (h : Heap Job) (q : Pool)
    → IsCalm body
    → num_workers hardware num_threads < 2 ^ 32
    → Reachable body clock (new_pool hardware now num_threads memory_resource h) q
    → IsKept q
history-IsKept body clock hardware now num_threads memory_resource h q calm small =
    Reachable-IsKept body clock calm (new_pool hardware now num_threads memory_resource h) q
      (new_pool-IsKept hardware now num_threads memory_resource h small)
