-- ===== src/JobSystem/History/Ledger/Enlist.antt =====
-- A new job in a queue, a job that leaves its queue, and a bin that is forgotten
-- (src/job/job_system.cpp).
use bop.Common.{
  ℕ, ◌≡◌, sym, ap, ◌∙◌, true, false, List, [], ◌∷◌, ◌++◌, ◌==◌, ◌&&◌, Distinct-snoc, mem-append,
  arith, if◌then◌else◌, Bool-cases, eqb_sym, eq_of_eqb, inl, inr, ◌⊎◌,
}
use bop.Memory.{Ptr, nullptr}
use bop.JobSystem.State.{Place, same_place}
use bop.JobSystem.History.Ledger.{
  Status, waits, is_work, is_pending, is_after, View, IsLedger, set_status, held-pending,
  after-pending,
}

module _ (v w : View) (st : Ptr → Status) (rank : Ptr → ℕ) (pending : List Ptr)
    (d : IsLedger v st rank pending) where
  -- No job follows one that is not pending.
  pub nobody_after : (p a : Ptr) → is_pending (st p) ≡ false → is_after (st a) p ≡ false
  nobody_after p a out = elim (Bool-cases (a == nullptr)) [
    | inl is_null ↦ rw (eq_of_eqb a nullptr is_null) (after-pending (st nullptr) p d.null)
    | inr na ↦ sym (d.following p a na) ∙ ap (λ b. b && v.next p == a) out
  ]

  -- A job that was not pending is put in a queue.
  pub enlist-IsLedger :
      (x : Place) (p : Ptr)
      → is_work x ≡ true
      → (p == nullptr) ≡ false
      → is_pending (st p) ≡ false
      → ((y : Place) (a : Ptr) → w.queued y a ≡ (if a == p then same_place x y else v.queued y a))
      → ((i : ℕ) → w.current i ≡ v.current i)
      → w.is_ready p ≡ true
      → w.next p ≡ nullptr
      → ((a : Ptr) → (a == p) ≡ false → (w.is_ready a ≡ v.is_ready a) × (w.next a ≡ v.next a))
      → IsLedger w (set_status p (waits x) st) rank (pending ++ p ∷ [])
  enlist-IsLedger x p work ne out queued current ready next others = record {
    waiting = λ y a. elim (Bool-cases (a == p)) [
      | inl hit ↦ rw (hit, queued y a, hit)
      | inr miss ↦ rw (miss, queued y a, miss) (d.waiting y a)
    ];
    holding = λ i a na. elim (Bool-cases (a == p)) [
      | inl hit ↦ rw (hit, current i) (ground (arith, d.holding i p ne, held-pending (st p) i out))
      | inr miss ↦ rw (miss, current i) (d.holding i a na)
    ];
    following = λ q a na. following' q a na (Bool-cases (q == p)) (Bool-cases (a == p));
    ready = λ a. elim (Bool-cases (a == p)) [
      | inl hit ↦ rw hit (λ m. ground (arith, ready))
      | inr miss ↦ rw miss (λ m. (others a miss).0 ∙ d.ready a m)
    ];
    null = rw (eqb_sym p nullptr ne) d.null;
    ranked = λ q a. elim (Bool-cases (a == p)) [
      | inl hit ↦ rw hit (λ m. ground (arith, m))
      | inr miss ↦ rw miss (d.ranked q a)
    ];
    listed = λ a. elim (Bool-cases (a == p)) [
      | inl hit ↦ rw (hit, mem-append a pending (p ∷ []), hit, work) (ground arith)
      | inr miss ↦ rw (miss, mem-append a pending (p ∷ []), miss) (ground (arith, d.listed a))
    ];
    distinct = Distinct-snoc pending p d.distinct (d.listed p ∙ out);
  }
    where
      following' :
          (q a : Ptr)
          → (a == nullptr) ≡ false
          → ((q == p) ≡ true) ⊎ ((q == p) ≡ false)
          → ((a == p) ≡ true) ⊎ ((a == p) ≡ false)
          → (is_pending (set_status p (waits x) st q) && w.next q == a)
            ≡ is_after (set_status p (waits x) st a) q
      following' q a na (inl hit) (inl same) =
          rw (hit, same, eq_of_eqb q p hit, next, eqb_sym a nullptr na, work)
      following' q a na (inl hit) (inr apart) =
          rw (hit, apart, eq_of_eqb q p hit, next, eqb_sym a nullptr na, work, nobody_after p a out)
      following' q a na (inr miss) (inl same) =
          rw (miss, same, (others q miss).1, eq_of_eqb a p same)
            (d.following q p ne ∙ after-pending (st p) q out)
      following' q a na (inr miss) (inr apart) =
          rw (miss, apart, (others q miss).1) (d.following q a na)
