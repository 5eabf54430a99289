-- ===== src/JobSystem/History/Ledger/Take.antt =====
-- A job that a thread takes out of its queue (src/job/job_system.cpp).
use bop.Common.{
  ℕ, ◌≡◌, sym, ap, ◌∙◌, true, false, List, ◌==◌, arith, if◌then◌else◌, Bool-cases, eqb_sym,
  eq_of_eqb, inl, inr, ◌⊎◌,
}
use bop.Memory.{Ptr, nullptr}
use bop.JobSystem.State.{Place}
use bop.JobSystem.History.Ledger.{
  Status, held, is_pending, is_at, is_held, is_after, View, IsLedger, set_status,
}
use bop.JobSystem.History.Ledger.Statuses.{at-held, at-after}

module _ (v w : View) (st : Ptr → Status) (rank : Ptr → ℕ) (pending : List Ptr)
    (d : IsLedger v st rank pending) (me : ℕ) (p : Ptr) (ne : (p == nullptr) ≡ false) where
  pub take-IsLedger :
      (x : Place)
      → v.queued x p ≡ true
      → is_pending (st p) ≡ true
      → v.current me ≡ nullptr
      → ((y : Place) (a : Ptr) → w.queued y a ≡ (if a == p then false else v.queued y a))
      → ((i : ℕ) → w.current i ≡ (if me == i then p else v.current i))
      → ((a : Ptr) → (w.is_ready a ≡ v.is_ready a) × (w.next a ≡ v.next a))
      → IsLedger w (set_status p (held me) st) rank pending
  take-IsLedger x here before free queued current same = record {
    waiting = λ y a. elim (Bool-cases (a == p)) [
      | inl hit ↦ rw (hit, queued y a, hit)
      | inr miss ↦ rw (miss, queued y a, miss) (d.waiting y a)
    ];
    holding = λ i a na. holding' i a na (Bool-cases (me == i)) (Bool-cases (a == p));
    following = λ q a na. rw (still q, (same q).1) (d.following q a na ∙ after a q);
    ready = λ a m. (same a).0 ∙ d.ready a (sym (still a) ∙ m);
    null = rw (eqb_sym p nullptr ne) d.null;
    ranked = λ q a m. d.ranked q a (after a q ∙ m);
    listed = λ a. d.listed a ∙ sym (still a);
    distinct = d.distinct;
  }
    where
      at_x : is_at (st p) x ≡ true
      at_x = sym (d.waiting x p) ∙ here

      still : (a : Ptr) → is_pending (set_status p (held me) st a) ≡ is_pending (st a)
      still a = elim (Bool-cases (a == p)) [
        | inl hit ↦ rw (hit, eq_of_eqb a p hit) (sym before)
        | inr miss ↦ rw miss
      ]

      after : (a q : Ptr) → is_after (st a) q ≡ is_after (set_status p (held me) st a) q
      after a q = elim (Bool-cases (a == p)) [
        | inl hit ↦ rw (hit, eq_of_eqb a p hit) (at-after (st p) x q at_x)
        | inr miss ↦ rw miss
      ]

      holding' :
          (i : ℕ) (a : Ptr)
          → (a == nullptr) ≡ false
          → ((me == i) ≡ true) ⊎ ((me == i) ≡ false)
          → ((a == p) ≡ true) ⊎ ((a == p) ≡ false)
          → (w.current i == a) ≡ is_held (set_status p (held me) st a) i
      holding' i a na (inl mine) (inl hit) = rw (current i, mine, hit) (ground (arith, mine))
      holding' i a na (inl mine) (inr miss) =
          rw (current i, mine, miss, sym (eq_of_eqb me i mine))
            (eqb_sym a p miss
              ∙ sym (eqb_sym a nullptr na)
              ∙ ap (λ b. b == a) (sym free)
              ∙ d.holding me a na)
      holding' i a na (inr other) (inl hit) =
          rw (current i, other, hit, eq_of_eqb a p hit)
            (d.holding i p ne ∙ at-held (st p) x i at_x ∙ sym other)
      holding' i a na (inr other) (inr miss) = rw (current i, other, miss) (d.holding i a na)
