-- ===== src/JobSystem/History/Starts.antt =====
-- The pool as it is made, and the start of a worker (src/job/job_system.cpp).
use bop.Common.{
  ℕ, ◌+◌, ◌^◌, ◌<◌, refl, ap, Option, List, [], arith, ◌==◌, eqb_sym, Bool-cases, eq_of_eqb, inl,
  inr,
}
use native.Mathlib.Nat.{mod-lt}
use bop.Memory.{Ptr, nullptr, Heap}
use bop.Job.{Job}
use bop.JobSystem.State.{System}
use bop.JobSystem.Inv.{Contents}
use bop.JobSystem.Start.{job_system, new_process, num_workers, worker_start}
use bop.JobSystem.Start.Once.{job_system_lem, num_workers-positive}
use bop.JobSystem.History.Ledger.{Status, nowhere, same-IsLedger}
use bop.JobSystem.History.Sound.{view, IsSound}

pub new-IsSound :
    (hardware now : ℕ) (num_threads : Option ℕ) (memory_resource : Ptr) (h : Heap Job)
    → num_workers hardware num_threads < 2 ^ 32
    → IsSound
        (job_system hardware now num_threads memory_resource (new_process h)).system
        (λ x. [])
        (λ a. nowhere)
        (λ a. 0)
        []
unfolding job_system
new-IsSound hardware now num_threads memory_resource h small =
    let some_thread = num_workers-positive hardware num_threads in
    record {
      inv = (job_system_lem hardware now num_threads memory_resource h small).inv;
      bounded = λ i. omega arith;
      fit = record {
        some_thread = some_thread;
        threads = omega arith;
        queues = small;
        index = λ i. some_thread;
        tidx = λ i. some_thread;
        steal_from = λ i. some_thread;
      };
      ledger = record {
        waiting = λ x p. refl;
        holding = λ i p ne. eqb_sym p nullptr ne;
        following = λ q p ne. refl;
        ready = λ p m. cc;
        null = refl;
        ranked = λ q p m. cc;
        listed = λ p. refl;
        distinct = tt;
      };
    }

pub start-IsSound :
    (me : ℕ) (s : System) (c : Contents) (st : Ptr → Status) (rank : Ptr → ℕ) (pending : List Ptr)
    → IsSound s c st rank pending
    → me < s.num_threads
    → IsSound (worker_start me s) c st rank pending
unfolding worker_start
start-IsSound me s c st rank pending sound lt = record {
  inv = record { idle = sound.inv.idle; apart = sound.inv.apart };
  bounded = sound.bounded;
  fit = record {
    some_thread = sound.fit.some_thread;
    threads = sound.fit.threads;
    queues = sound.fit.queues;
    index = λ i. elim (Bool-cases (me == i)) [
      | inl mine ↦ rw mine (omega (arith, lt, sound.fit.threads))
      | inr other ↦ rw other (sound.fit.index i)
    ];
    tidx = λ i. elim (Bool-cases (me == i)) [
      | inl mine ↦ rw mine (sound.fit.tidx me)
      | inr other ↦ rw other (sound.fit.tidx i)
    ];
    steal_from = λ i. elim (Bool-cases (me == i)) [
      | inl mine ↦ rw mine (mod-lt (me + 1) sound.fit.some_thread)
      | inr other ↦ rw other (sound.fit.steal_from i)
    ];
  };
  ledger =
      same-IsLedger (view s c) (view (worker_start me s) c) st rank pending sound.ledger
        (λ y a. refl)
        (λ i. elim (Bool-cases (me == i)) [
          | inl mine ↦ rw mine (ap (λ k. (s.threads k).current_job) (eq_of_eqb me i mine))
          | inr other ↦ rw other
        ])
        (λ a. (refl, refl));
}
