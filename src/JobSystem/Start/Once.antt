-- ===== src/JobSystem/Start/Once.antt =====
-- The pool is made once, by the first JobSystem that the program constructs (src/job/job_system.cpp).
use bop.Common.{
  zero, suc, ◌+◌, List, ◌∷◌, ◌++◌, ap, ap₂, ◌∙◌, sym, subst, eqb_refl, ℕ, ◌^◌, ◌<◌, ◌≡◌, refl,
  Option, none, some, [], arith,
}
use mathlib.Core.Bool.{false≢true}
use bop.Memory.{Ptr, Heap}
use bop.Queue.Shape.{empty-IsQueue}
use bop.Job.{Job, job_link}
use bop.JobSystem.State.{Place, global_queue, local_queue, recycling_bin, garbage_bin}
use bop.JobSystem.Inv.{Inv}
use bop.JobSystem.Schedule.Enqueue.{Fits}
use bop.JobQueue.{new_queue}
use bop.JobQueue.Locked.{IsIdle}
use bop.JobSystem.Start.{
  new_arrays, Process, new_process, num_workers, launch, job_system, worker_start,
}

-- As many workers as are asked for, else as the hardware has, and at least one.
abbrev pub at_least_one : ℕ → ℕ
at_least_one zero = 1
at_least_one (suc n) = suc n

abbrev pub wanted : (hardware : ℕ) → Option ℕ → ℕ
wanted hardware none = at_least_one hardware
wanted hardware (some n) = at_least_one n

-- The numbers below `n`, in order.
abbrev pub below : ℕ → List ℕ
below zero = []
below (suc n) = below n ++ n ∷ []

pub num_workers-wanted : (hardware : ℕ) (m : Option ℕ) → num_workers hardware m ≡ wanted hardware m
num_workers-wanted zero none = refl
num_workers-wanted (suc n) none = ground arith
num_workers-wanted hardware (some zero) = refl
num_workers-wanted hardware (some (suc n)) = ground arith

launch-snoc : (n i : ℕ) → launch (suc n) i ≡ launch n i ++ (i + n) ∷ []
launch-snoc zero i = ap (λ k. k ∷ []) (omega arith)
launch-snoc (suc n) i =
    ap (λ l. i ∷ l) (launch-snoc n (i + 1) ∙ ap (λ k. launch n (i + 1) ++ k ∷ []) (omega arith))

launch-below : (n : ℕ) → launch n 0 ≡ below n
launch-below zero = refl
launch-below (suc n) = launch-snoc n 0 ∙ ap₂ (λ l k. l ++ k ∷ []) (launch-below n) (omega arith)

-- The pool of the first construction.
pub record Started (n : ℕ) (memory_resource : Ptr) (p : Process) : Type 0 where
  pub inv : Inv p.system (λ x. [])
  pub workers : (p.launched ≡ below n) × (p.system.num_threads ≡ n) × (0 < n)
  pub resource : p.memory_resource ≡ memory_resource
  pub fits : (i : ℕ) → i < n → Fits i (worker_start i p.system).env
  pub again : (k now : ℕ) (m : Option ℕ) (r : Ptr) → job_system k now m r p ≡ p

pub num_workers-positive : (hardware : ℕ) (m : Option ℕ) → 0 < num_workers hardware m
num_workers-positive hardware none = ground arith
num_workers-positive hardware (some n) = ground arith

pub job_system_lem :
    (hardware now : ℕ) (num_threads : Option ℕ) (memory_resource : Ptr) (h : Heap Job)
    → num_workers hardware num_threads < 2 ^ 32
    → Started
        (num_workers hardware num_threads)
        memory_resource
        (job_system hardware now num_threads memory_resource (new_process h))
unfolding job_system worker_start
job_system_lem hardware now m r h small = record {
  inv = record { idle = idle; apart = λ x y p a b. absurd (false≢true a) };
  workers = (launch-below (num_workers hardware m), refl, num_workers-positive hardware m);
  resource = refl;
  fits = fits;
  again = λ k now' m' r'. refl;
}
  where
    empty_place : (x : Place) → IsIdle h new_queue []
    empty_place x = record { free = refl; list = empty-IsQueue job_link h }

    idle : (x : Place) → IsIdle h (new_arrays (λ y. new_queue) x) []
    idle (global_queue i) = empty_place (global_queue i)
    idle (local_queue i) = empty_place (local_queue i)
    idle (recycling_bin i) = empty_place (recycling_bin i)
    idle (garbage_bin i) = empty_place (garbage_bin i)

    fits :
        (i : ℕ)
        → i < num_workers hardware m
        → Fits i (worker_start i (job_system hardware now m r (new_process h)).system).env
    fits i lt = record {
      some_thread = num_workers-positive hardware m;
      threads = omega arith;
      queues = small;
      index = rw (eqb_refl i) lt;
      tidx = rw (eqb_refl i) (num_workers-positive hardware m);
    }

-- At the start of the program, with no job in any queue, the first construction of a JobSystem makes a
-- well-formed pool of empty queues, for as many workers as are asked for, else as the hardware has, and
-- for at least one. It launches these workers, by their numbers from zero on, each of which fits the arrays once it has started. Any
-- further construction changes nothing, whatever it asks for.
pub job_system-Started :
    (hardware now : ℕ) (num_threads : Option ℕ) (memory_resource : Ptr) (h : Heap Job)
    → wanted hardware num_threads < 2 ^ 32
    → Started
        (wanted hardware num_threads)
        memory_resource
        (job_system hardware now num_threads memory_resource (new_process h))
job_system-Started hardware now m r h small =
    let same = num_workers-wanted hardware m in
    subst (λ n. Started n r (job_system hardware now m r (new_process h))) same
      (job_system_lem hardware now m r h (subst (λ n. n < 2 ^ 32) (sym same) small))
