-- ===== src/JobSystem/History/Chosen.antt =====
-- The queue that schedule chooses, and the recycling bin from which create_job takes
-- (src/job/job_system.inl, src/job/job_system.cpp).
use bop.Common.{
  ℕ, ◌+◌, ◌≤◌, ◌≡◌, refl, sym, subst, ap, ◌∙◌, Bool, true, false, Option, List, [], ◌∷◌, arith,
  length, ◌==◌, tail, if◌then◌else◌, Bool-cases, eq_of_eqb, inl, inr,
}
use native.Mathlib.Nat.{mod-lt}
use bop.Memory.{Ptr}
use bop.JobSystem.State.{Place, recycling_bin, same_place, Env}
use bop.JobSystem.Inv.{Contents, Inv, put, NotQueued, queued-IsLive}
use bop.JobSystem.Schedule.Create.{bin_rest}
use bop.JobSystem.Schedule.Enqueue.{asks_none, destination, balanced}
use bop.JobSystem.Complete.Recycle.{IsBounded}
use bop.JobSystem.History.Ledger.{Status, nowhere, waits, held, follows, is_work, is_pending, is_at}
use bop.JobSystem.History.Sound.{IsFit}

pub destination-is_work :
    (me : ℕ) (thread_index : Option ℕ) (e : Env) → is_work (destination me thread_index e) ≡ true
destination-is_work me thread_index e = elim (Bool-cases (asks_none thread_index e.num_threads)) [
  | inl untagged ↦ rw untagged
  | inr tagged ↦ rw tagged
]

pub destination-bin :
    (me : ℕ) (thread_index : Option ℕ) (e : Env) (i : ℕ)
    → same_place (destination me thread_index e) (recycling_bin i) ≡ false
destination-bin me thread_index e i = elim (Bool-cases (asks_none thread_index e.num_threads)) [
  | inl untagged ↦ rw untagged
  | inr tagged ↦ rw tagged
]

pub balanced-IsFit :
    (me : ℕ) (thread_index : Option ℕ) (e : Env) → IsFit e → IsFit (balanced me thread_index e)
balanced-IsFit me thread_index e fit = elim (Bool-cases (asks_none thread_index e.num_threads)) [
  | inl untagged ↦ rw untagged (record {
    some_thread = fit.some_thread;
    threads = fit.threads;
    queues = fit.queues;
    index = λ i. elim (Bool-cases (me == i)) [
      | inl mine ↦ rw mine (fit.index me)
      | inr other ↦ rw other (fit.index i)
    ];
    tidx = λ i. elim (Bool-cases (me == i)) [
      | inl mine ↦ rw mine (mod-lt ((e.threads me).tidx + 1) fit.some_thread)
      | inr other ↦ rw other (fit.tidx i)
    ];
    steal_from = λ i. elim (Bool-cases (me == i)) [
      | inl mine ↦ rw mine (fit.steal_from me)
      | inr other ↦ rw other (fit.steal_from i)
    ];
  })
  | inr tagged ↦ rw tagged fit
]

pub balanced-called :
    (me : ℕ) (thread_index : Option ℕ) (e : Env) → (balanced me thread_index e).called ≡ e.called
balanced-called me thread_index e = elim (Bool-cases (asks_none thread_index e.num_threads)) [
  | inl untagged ↦ rw untagged
  | inr tagged ↦ rw tagged
]

pub balanced-current :
    (me : ℕ) (thread_index : Option ℕ) (e : Env) (i : ℕ)
    → ((balanced me thread_index e).threads i).current_job ≡ (e.threads i).current_job
balanced-current me thread_index e i = elim (Bool-cases (asks_none thread_index e.num_threads)) [
  | inl untagged ↦ rw untagged (elim (Bool-cases (me == i)) [
    | inl mine ↦ rw mine (ap (λ k. (e.threads k).current_job) (eq_of_eqb me i mine))
    | inr other ↦ rw other
  ])
  | inr tagged ↦ rw tagged
]

-- What is in a bin is not pending.
pub at-bin : (t : Status) (x : Place) → is_work x ≡ false → is_at t x ≡ true → is_pending t ≡ false
at-bin nowhere x idle m = cc
at-bin (waits y) x idle m = ap is_work (bop.JobSystem.Inv.same_place_eq y x m) ∙ idle
at-bin (held i) x idle m = cc
at-bin (follows q) x idle m = cc

pub if_else :
    (b x u v : Bool) → u ≡ (if b then false else v) → (if b then x else u) ≡ (if b then x else v)
if_else true x u v e = refl
if_else false x u v e = e

length-tail-le : (ps : List Ptr) → length (tail ps) ≤ length ps
length-tail-le [] = omega arith
length-tail-le (p ∷ ps) = omega arith

pub bin_rest-IsBounded : (me i : ℕ) (c : Contents) → IsBounded i c → IsBounded i (bin_rest me c)
bin_rest-IsBounded me i c b = elim (Bool-cases (me == i)) [
  | inl mine ↦ rw mine (
      omega (
        arith,
        length-tail-le (c (recycling_bin me)),
        subst (λ k. IsBounded k c) (sym (eq_of_eqb me i mine)) b,
      ))
  | inr other ↦ rw other b
]
