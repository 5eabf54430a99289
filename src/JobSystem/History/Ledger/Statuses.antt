-- ===== src/JobSystem/History/Ledger/Statuses.antt =====
-- Which statuses exclude each other, for the ledger of the pool (src/job/job_system.cpp).
use bop.Common.{ℕ, ◌≡◌, refl, true, false, ◌==◌, eq_of_eqb}
use bop.Memory.{Ptr}
use bop.JobSystem.State.{Place}
use bop.JobSystem.History.Ledger.{
  Status, nowhere, waits, held, follows, is_pending, is_at, is_held, is_after,
}

pub at-held : (t : Status) (x : Place) (i : ℕ) → is_at t x ≡ true → is_held t i ≡ false
at-held (waits y) x i e = refl
at-held nowhere x i e = cc
at-held (held j) x i e = cc
at-held (follows q) x i e = cc

pub at-after : (t : Status) (x : Place) (q : Ptr) → is_at t x ≡ true → is_after t q ≡ false
at-after (waits y) x i e = refl
at-after nowhere x i e = cc
at-after (held j) x i e = cc
at-after (follows q) x i e = cc

pub after-at : (t : Status) (q : Ptr) (x : Place) → is_after t q ≡ true → is_at t x ≡ false
after-at (follows p) q x e = refl
after-at nowhere q x e = cc
after-at (waits y) q x e = cc
after-at (held i) q x e = cc

pub after-is_pending : (t : Status) (q : Ptr) → is_after t q ≡ true → is_pending t ≡ true
after-is_pending (follows p) q e = refl
after-is_pending nowhere q e = cc
after-is_pending (waits y) q e = cc
after-is_pending (held i) q e = cc

pub after-held : (t : Status) (q : Ptr) (i : ℕ) → is_after t q ≡ true → is_held t i ≡ false
after-held (follows p) q i e = refl
after-held nowhere q i e = cc
after-held (waits y) q i e = cc
after-held (held j) q i e = cc

pub after-after : (t : Status) (p q : Ptr) → is_after t p ≡ true → is_after t q ≡ (p == q)
after-after (follows r) p q e = rw (eq_of_eqb r p e)
after-after nowhere p q e = cc
after-after (waits y) p q e = cc
after-after (held i) p q e = cc

pub held-is_pending : (t : Status) (i : ℕ) → is_held t i ≡ true → is_pending t ≡ true
held-is_pending (held j) i e = refl
held-is_pending nowhere i e = cc
held-is_pending (waits y) i e = cc
held-is_pending (follows q) i e = cc

pub held-held : (t : Status) (i j : ℕ) → is_held t i ≡ true → is_held t j ≡ (i == j)
held-held (held k) i j e = rw (eq_of_eqb k i e)
held-held nowhere i j e = cc
held-held (waits y) i j e = cc
held-held (follows q) i j e = cc

pub held-after : (t : Status) (i : ℕ) (q : Ptr) → is_held t i ≡ true → is_after t q ≡ false
held-after (held k) i j e = refl
held-after nowhere i j e = cc
held-after (waits y) i j e = cc
held-after (follows q) i j e = cc
