-- ===== src/JobSystem/History/Drained.antt =====
-- A pool that has run dry (src/job/job_system.cpp).
use bop.Common.{
  ℕ, zero, suc, ◌^◌, ◌<◌, ◌≡◌, refl, sym, ap, ◌∙◌, Bool, true, false, ◌&&◌, Option, List, [], arith,
  first, ◌==◌, mem, mem_self, eqb_refl, List-cases, eqb_sym, inl, inr,
}
use mathlib.Core.Bool.{false≢true}
use bop.Memory.{Ptr, nullptr, Heap, Run}
use bop.Job.{Job, Outcome}
use bop.JobSystem.State.{Place, System}
use bop.JobSystem.Inv.{Contents, queued-IsLive, same_place_refl}
use bop.JobSystem.Start.{num_workers}
use bop.JobSystem.History.{Pool, new_pool, Reachable}
use bop.JobSystem.History.Ledger.{
  Status, nowhere, waits, held, follows, is_work, is_pending, is_at, is_held, is_after,
}
use bop.JobSystem.History.Ledger.Erase.{occurs}
use bop.JobSystem.History.Sound.{IsSound, ready-job}
use bop.JobSystem.History.Reached.{history-IsKept}
use bop.JobSystem.Worker.Chain.{runs_of}
use bop.JobSystem.History.Works.Executes.{IsCalm}

-- No queue that jobs wait in holds one, and no thread has one.
pub record IsDry (s : System) : Type 0 where
  pub queues : (x : Place) → is_work x ≡ true → (s.queues x).list.head ≡ nullptr
  pub threads : (i : ℕ) → (s.threads i).current_job ≡ nullptr

and_left : (a b : Bool) → (a && b) ≡ true → a ≡ true
and_left true b e = refl
and_left false b e = e

module _ (s : System) (c : Contents) (st : Ptr → Status) (rank : Ptr → ℕ) (pending : List Ptr)
    (sound : IsSound s c st rank pending) (dry : IsDry s) where
  open sound use {inv, ledger}

  empty_place : (x : Place) → is_work x ≡ true → c x ≡ []
  empty_place x work = elim (List-cases (c x)) [
    | inl e ↦ e
    | inr (p, ps, e) ↦
        let is_null : p ≡ nullptr =
          sym (ap (λ l. first l nullptr) e) ∙ sym (inv.idle x).list.head ∙ dry.queues x work in
        absurd (
          false≢true (
            sym (queued-IsLive s c x p inv (rw e (mem_self p ps))).0
            ∙ ap (λ a. a == nullptr) is_null))
  ]

  -- Where a pending job could be.
  nowhere_to_be :
      (a : Ptr) (t : Status)
      → is_pending (st a) ≡ true
      → st a ≡ t
      → ((q : Ptr) → rank q < rank a → is_pending (st q) ≡ true → ⊥)
      → ⊥
  nowhere_to_be a nowhere m e before = false≢true (sym (ap is_pending e) ∙ m)
  nowhere_to_be a (waits x) m e before = false≢true (
      sym (ap (mem a) (empty_place x (sym (ap is_pending e) ∙ m)))
      ∙ ledger.waiting x a
      ∙ ap (λ t. is_at t x) e
      ∙ same_place_refl x)
  nowhere_to_be a (held i) m e before =
      let na : (a == nullptr) ≡ false = (ready-job a (s.heap a) (ledger.ready a m)).0 in
      false≢true (
        sym (eqb_sym a nullptr na)
        ∙ ap (λ p. p == a) (sym (dry.threads i))
        ∙ ledger.holding i a na
        ∙ ap (λ t. is_held t i) e
        ∙ eqb_refl i)
  nowhere_to_be a (follows q) m e before =
      let na : (a == nullptr) ≡ false = (ready-job a (s.heap a) (ledger.ready a m)).0 in
      let next : is_after (st a) q ≡ true = ap (λ t. is_after t q) e ∙ eqb_refl q in
      before q (ledger.ranked q a next)
        (and_left (is_pending (st q)) _ (ledger.following q a na ∙ next))

  -- By descent along the ranks, from a continuation to its predecessor.
  none_pending : (n : ℕ) (a : Ptr) → rank a < n → is_pending (st a) ≡ true → ⊥
  none_pending zero a lt m = omega arith
  none_pending (suc n) a lt m =
      nowhere_to_be a (st a) m refl λ q less. none_pending n q (omega (arith, less, lt))

  drained : pending ≡ []
  drained = elim (List-cases pending) [
    | inl e ↦ e
    | inr (p, ps, e) ↦
        absurd (
          none_pending (suc (rank p)) p (omega arith)
            (sym (ledger.listed p) ∙ rw e (mem_self p ps)))
  ]

-- In a history of the pool as in history-IsKept: if no queue that jobs wait in holds one, and no
-- thread has one, then each callable has run as often as it was passed to schedule and to then.
pub history-drained :
    (body : ℕ → System → Run (System × Outcome)) (clock : ℕ → System → ℕ) (hardware now : ℕ)
    (num_threads : Option ℕ) (memory_resource : Ptr) (h : Heap Job) (q : Pool)
    → IsCalm body
    → num_workers hardware num_threads < 2 ^ 32
    → Reachable body clock (new_pool hardware now num_threads memory_resource h) q
    → IsDry q.system
    → (f : ℕ) → occurs f q.asked ≡ occurs f q.system.called
history-drained body clock hardware now num_threads memory_resource h q calm small way dry f =
    let k = history-IsKept body clock hardware now num_threads memory_resource h q calm small way in
    let none_left = drained q.system k.contents k.status k.rank q.pending k.sound dry in
    omega (arith, k.accounted f, ap (λ ps. occurs f (runs_of q.system.heap ps)) none_left)
