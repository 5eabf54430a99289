-- ===== src/JobSystem/History/Ledger/Forget.antt =====
-- A bin whose jobs are forgotten (src/job/job_system.cpp).
use bop.Common.{
  ℕ, ◌≡◌, refl, sym, ap, ◌∙◌, true, false, List, ◌==◌, if◌then◌else◌, Bool-cases, if_same, ◌⊎◌, inl,
  inr,
}
use bop.Memory.{Ptr, nullptr}
use bop.JobSystem.State.{Place, same_place}
use bop.JobSystem.Inv.{same_place_eq}
use bop.JobSystem.History.Ledger.{
  Status, nowhere, waits, held, follows, is_work, is_pending, is_at, is_held, is_after, View,
  IsLedger,
}

-- The statuses after the bin `x` is forgotten.
abbrev pub forgotten : Place → Status → Status
forgotten x t = if is_at t x then nowhere else t

module _ (x : Place) where
  forgotten-is_pending :
      is_work x ≡ false → (t : Status) → is_pending (forgotten x t) ≡ is_pending t
  forgotten-is_pending idle nowhere = refl
  forgotten-is_pending idle (held i) = refl
  forgotten-is_pending idle (follows p) = refl
  forgotten-is_pending idle (waits y) = elim (Bool-cases (same_place y x)) [
    | inl hit ↦ rw hit (sym (ap is_work (same_place_eq y x hit) ∙ idle))
    | inr miss ↦ rw miss
  ]

  forgotten-is_held : (t : Status) (i : ℕ) → is_held (forgotten x t) i ≡ is_held t i
  forgotten-is_held nowhere i = refl
  forgotten-is_held (held j) i = refl
  forgotten-is_held (follows p) i = refl
  forgotten-is_held (waits y) i = elim (Bool-cases (same_place y x)) [
    | inl hit ↦ rw hit
    | inr miss ↦ rw miss
  ]

  forgotten-is_after : (t : Status) (q : Ptr) → is_after (forgotten x t) q ≡ is_after t q
  forgotten-is_after nowhere q = refl
  forgotten-is_after (held j) q = refl
  forgotten-is_after (follows p) q = refl
  forgotten-is_after (waits y) q = elim (Bool-cases (same_place y x)) [
    | inl hit ↦ rw hit
    | inr miss ↦ rw miss
  ]

  forgotten-is_at :
      (t : Status) (y : Place)
      → is_at (forgotten x t) y ≡ (if same_place x y then false else is_at t y)
  forgotten-is_at nowhere y = sym (if_same (same_place x y) false)
  forgotten-is_at (held j) y = sym (if_same (same_place x y) false)
  forgotten-is_at (follows p) y = sym (if_same (same_place x y) false)
  forgotten-is_at (waits z) y = waits_at (Bool-cases (same_place z x)) (Bool-cases (same_place x y))
    where
      waits_at :
          ((same_place z x) ≡ true) ⊎ ((same_place z x) ≡ false)
          → ((same_place x y) ≡ true) ⊎ ((same_place x y) ≡ false)
          → is_at (forgotten x (waits z)) y ≡ (if same_place x y then false else same_place z y)
      waits_at (inl here) (inl hit) = rw (here, hit)
      waits_at (inl here) (inr miss) =
          rw (here, miss) (sym (ap (λ u. same_place u y) (same_place_eq z x here) ∙ miss))
      waits_at (inr away) (inl hit) =
          rw (away, hit) (ap (same_place z) (sym (same_place_eq x y hit)) ∙ away)
      waits_at (inr away) (inr miss) = rw (away, miss)

module _ (v w : View) (st : Ptr → Status) (rank : Ptr → ℕ) (pending : List Ptr)
    (d : IsLedger v st rank pending) (x : Place) (idle : is_work x ≡ false) where
  pub forget-IsLedger :
      ((y : Place) (a : Ptr) → w.queued y a ≡ (if same_place x y then false else v.queued y a))
      → ((i : ℕ) → w.current i ≡ v.current i)
      → ((a : Ptr) → (w.is_ready a ≡ v.is_ready a) × (w.next a ≡ v.next a))
      → IsLedger w (λ a. forgotten x (st a)) rank pending
  forget-IsLedger queued current same = record {
    waiting = λ y a.
        queued y a
        ∙ ap (λ b. if same_place x y then false else b) (d.waiting y a)
        ∙ sym (forgotten-is_at x (st a) y);
    holding = λ i a na.
        ap (λ p. p == a) (current i) ∙ d.holding i a na ∙ sym (forgotten-is_held x (st a) i);
    following = λ q a na.
        rw (forgotten-is_pending x idle (st q), (same q).1)
          (d.following q a na ∙ sym (forgotten-is_after x (st a) q));
    ready = λ a m. (same a).0 ∙ d.ready a (sym (forgotten-is_pending x idle (st a)) ∙ m);
    null = forgotten-is_pending x idle (st nullptr) ∙ d.null;
    ranked = λ q a m. d.ranked q a (sym (forgotten-is_after x (st a) q) ∙ m);
    listed = λ a. d.listed a ∙ sym (forgotten-is_pending x idle (st a));
    distinct = d.distinct;
  }
