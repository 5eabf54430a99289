-- ===== src/JobSystem/History/Ledger/Follow.antt =====
-- A job that is made the continuation of a pending one (src/job/job.inl).
use bop.Common.{
  ℕ, suc, ◌<◌, ◌≡◌, sym, ap, ◌∙◌, true, false, List, [], ◌∷◌, ◌++◌, ◌==◌, ◌&&◌, Distinct-snoc,
  mem-append, arith, if◌then◌else◌, Bool-cases, eqb_sym, eq_of_eqb, inl, inr, ◌⊎◌,
}
use mathlib.Core.Bool.{false≢true}
use bop.Memory.{Ptr, nullptr}
use bop.JobSystem.State.{Place}
use bop.JobSystem.History.Ledger.{
  Status, follows, is_pending, is_after, View, IsLedger, set_status, held-pending, after-pending,
}
use bop.JobSystem.History.Ledger.Enlist.{nobody_after}

abbrev pub rank_after : Ptr → Ptr → (Ptr → ℕ) → Ptr → ℕ
rank_after job p rank a = if a == p then suc (rank job) else rank a

module _ (v w : View) (st : Ptr → Status) (rank : Ptr → ℕ) (pending : List Ptr)
    (d : IsLedger v st rank pending) (job p : Ptr) where
  pub follow-IsLedger :
      (p == nullptr) ≡ false
      → is_pending (st p) ≡ false
      → is_pending (st job) ≡ true
      → v.next job ≡ nullptr
      → (job == p) ≡ false
      → ((y : Place) (a : Ptr) → w.queued y a ≡ (if a == p then false else v.queued y a))
      → ((i : ℕ) → w.current i ≡ v.current i)
      → (w.is_ready p ≡ true) × (w.next p ≡ nullptr)
      → (w.is_ready job ≡ true) × (w.next job ≡ p)
      → ((a : Ptr)
          → (a == job) ≡ false
          → (a == p) ≡ false
          → (w.is_ready a ≡ v.is_ready a) × (w.next a ≡ v.next a))
      → IsLedger w (set_status p (follows job) st) (rank_after job p rank) (pending ++ p ∷ [])
  follow-IsLedger ne out before last apart queued current new chained others = record {
    waiting = λ y a. elim (Bool-cases (a == p)) [
      | inl hit ↦ rw (hit, queued y a, hit)
      | inr miss ↦ rw (miss, queued y a, miss) (d.waiting y a)
    ];
    holding = λ i a na. elim (Bool-cases (a == p)) [
      | inl hit ↦ rw (hit, current i) (ground (arith, d.holding i p ne, held-pending (st p) i out))
      | inr miss ↦ rw (miss, current i) (d.holding i a na)
    ];
    following = λ q a na.
        following' q a na (Bool-cases (q == p)) (Bool-cases (q == job)) (Bool-cases (a == p));
    ready = λ a. elim (Bool-cases (a == p)) [
      | inl hit ↦ rw hit (λ m. ground (arith, new.0))
      | inr miss ↦ rw miss (λ m. elim (Bool-cases (a == job)) [
        | inl same ↦ ground (arith, chained.0)
        | inr other ↦ (others a other miss).0 ∙ d.ready a m
      ])
    ];
    null = rw (eqb_sym p nullptr ne) d.null;
    ranked = λ q a. elim (Bool-cases (a == p)) [
      | inl hit ↦ rw hit (λ m. rw (sym (eq_of_eqb job q m), apart) (omega arith))
      | inr miss ↦ rw miss (λ m. ranked' q a m (Bool-cases (q == p)))
    ];
    listed = λ a. elim (Bool-cases (a == p)) [
      | inl hit ↦ rw (hit, mem-append a pending (p ∷ []), hit) (ground arith)
      | inr miss ↦ rw (miss, mem-append a pending (p ∷ []), miss) (ground (arith, d.listed a))
    ];
    distinct = Distinct-snoc pending p d.distinct (d.listed p ∙ out);
  }
    where
      ranked' :
          (q a : Ptr)
          → is_after (st a) q ≡ true
          → ((q == p) ≡ true) ⊎ ((q == p) ≡ false)
          → rank_after job p rank q < rank a
      ranked' q a m (inl hit) = absurd (
          false≢true (
            sym (nobody_after v v st rank pending d p a out)
            ∙ ap (is_after (st a)) (sym (eq_of_eqb q p hit))
            ∙ m))
      ranked' q a m (inr miss) = rw miss (d.ranked q a m)

      following' :
          (q a : Ptr)
          → (a == nullptr) ≡ false
          → ((q == p) ≡ true) ⊎ ((q == p) ≡ false)
          → ((q == job) ≡ true) ⊎ ((q == job) ≡ false)
          → ((a == p) ≡ true) ⊎ ((a == p) ≡ false)
          → (is_pending (set_status p (follows job) st q) && w.next q == a)
            ≡ is_after (set_status p (follows job) st a) q
      following' q a na (inl hit) _ (inl same) =
          rw (hit, same, eq_of_eqb q p hit, new.1, eqb_sym a nullptr na, apart)
      following' q a na (inl hit) _ (inr other) = rw (
        hit,
        other,
        eq_of_eqb q p hit,
        new.1,
        eqb_sym a nullptr na,
        nobody_after v v st rank pending d p a out,
      )
      following' q a na (inr miss) (inl at) (inl same) =
          rw (miss, same, eq_of_eqb q job at, chained.1, before, eq_of_eqb a p same) (ground arith)
      following' q a na (inr miss) (inl at) (inr other) =
          rw (miss, other, eq_of_eqb q job at, chained.1, before, eqb_sym a p other)
            (ground (arith, d.following job a na, last, before))
      following' q a na (inr miss) (inr off) (inl same) =
          rw (miss, same, (others q off miss).1, eq_of_eqb a p same, eqb_sym q job off)
            (d.following q p ne ∙ after-pending (st p) q out)
      following' q a na (inr miss) (inr off) (inr other) =
          rw (miss, other, (others q off miss).1) (d.following q a na)
