-- ===== src/JobSystem/History/Ledger/Turn.antt =====
-- A job that a thread has executed, and its continuation (src/job/job_system.cpp).
use bop.Common.{
  ℕ, ◌<◌, ◌≡◌, sym, ap, ◌∙◌, true, false, List, ◌==◌, ◌&&◌, mem, if◌then◌else◌, Bool-cases,
  eqb_refl, eqb_sym, eq_of_eqb, inl, inr, ◌⊎◌,
}
use mathlib.Core.Bool.{false≢true}
use bop.Memory.{Ptr, nullptr}
use bop.JobSystem.State.{Place, same_place}
use bop.JobSystem.History.Ledger.{
  Status, waits, held, is_work, is_pending, is_held, is_after, View, IsLedger,
}
use bop.JobSystem.History.Ledger.Erase.{erase, mem-erase_other, mem-erase_self, Distinct-erase}
use bop.JobSystem.History.Ledger.Statuses.{
  after-at, after-is_pending, after-held, after-after, held-is_pending, held-held, held-after,
}

-- A status in which a job waits, or after the job at `p` is executed, in `me`'s hands.
abbrev pub turned : ℕ → Ptr → Place → (Ptr → Status) → Ptr → Status
turned me p bin st a = if a == p then waits bin else if is_after (st a) p then held me else st a

module _ (v w : View) (st : Ptr → Status) (rank : Ptr → ℕ) (pending : List Ptr)
    (d : IsLedger v st rank pending) (me : ℕ) (p : Ptr) (ne : (p == nullptr) ≡ false) where
  pub turn-IsLedger :
      (bin : Place)
      → is_work bin ≡ false
      → v.current me ≡ p
      → ((y : Place) (a : Ptr) → w.queued y a ≡ (if a == p then same_place bin y else v.queued y a))
      → ((i : ℕ) → w.current i ≡ (if me == i then v.next p else v.current i))
      → ((a : Ptr) → (a == p) ≡ false → (w.is_ready a ≡ v.is_ready a) × (w.next a ≡ v.next a))
      → IsLedger w (turned me p bin st) rank (erase p pending)
  turn-IsLedger bin idle mine queued current same = record {
    waiting = λ y a. elim (Bool-cases (a == p)) [
      | inl hit ↦ rw (hit, queued y a, hit)
      | inr miss ↦
          rw (miss, queued y a, miss)
            (d.waiting y a ∙ elim (Bool-cases (is_after (st a) p)) [
              | inl next ↦ rw next (after-at (st a) p y next)
              | inr other ↦ rw other
            ])
    ];
    holding = λ i a na.
        holding' i a na (Bool-cases (me == i)) (Bool-cases (a == p))
          (Bool-cases (is_after (st a) p));
    following = λ q a na.
        following' q a na (Bool-cases (q == p)) (Bool-cases (a == p))
          (Bool-cases (is_after (st a) p));
    ready = λ a m.
        let left : (if a == p then false else is_pending (st a)) ≡ true = sym (still a) ∙ m in
        elim (Bool-cases (a == p)) [
          | inl hit ↦ absurd (false≢true (rw hit at left))
          | inr miss ↦ (same a miss).0 ∙ d.ready a (rw miss at left)
        ];
    null = still nullptr ∙ rw (eqb_sym p nullptr ne) d.null;
    ranked = λ q a m. ranked' q a m (Bool-cases (a == p)) (Bool-cases (is_after (st a) p));
    listed = λ a. erased a ∙ sym (still a);
    distinct = Distinct-erase p pending d.distinct;
  }
    where
      in_hand : is_held (st p) me ≡ true
      in_hand = sym (d.holding me p ne) ∙ ap (λ b. b == p) mine ∙ eqb_refl p

      before : is_pending (st p) ≡ true
      before = held-is_pending (st p) me in_hand

      still :
          (a : Ptr)
          → is_pending (turned me p bin st a) ≡ (if a == p then false else is_pending (st a))
      still a = elim (Bool-cases (a == p)) [
        | inl hit ↦ rw hit idle
        | inr miss ↦ rw miss (elim (Bool-cases (is_after (st a) p)) [
          | inl next ↦ rw next (sym (after-is_pending (st a) p next))
          | inr other ↦ rw other
        ])
      ]

      next_is : (a : Ptr) → (a == nullptr) ≡ false → (v.next p == a) ≡ is_after (st a) p
      next_is a na = sym (ap (λ b. b && v.next p == a) before) ∙ d.following p a na

      erased : (a : Ptr) → mem a (erase p pending) ≡ (if a == p then false else is_pending (st a))
      erased a = elim (Bool-cases (a == p)) [
        | inl hit ↦ rw (hit, eq_of_eqb a p hit) (mem-erase_self p pending d.distinct)
        | inr miss ↦ rw miss (mem-erase_other p a pending miss ∙ d.listed a)
      ]

      ranked' :
          (q a : Ptr)
          → is_after (turned me p bin st a) q ≡ true
          → ((a == p) ≡ true) ⊎ ((a == p) ≡ false)
          → (is_after (st a) p ≡ true) ⊎ (is_after (st a) p ≡ false)
          → rank q < rank a
      ranked' q a m (inl hit) _ = absurd (false≢true (rw hit at m))
      ranked' q a m (inr miss) (inl next) = absurd (false≢true (rw (miss, next) at m))
      ranked' q a m (inr miss) (inr other) = d.ranked q a (rw (miss, other) at m)

      holding' :
          (i : ℕ) (a : Ptr)
          → (a == nullptr) ≡ false
          → ((me == i) ≡ true) ⊎ ((me == i) ≡ false)
          → ((a == p) ≡ true) ⊎ ((a == p) ≡ false)
          → (is_after (st a) p ≡ true) ⊎ (is_after (st a) p ≡ false)
          → (w.current i == a) ≡ is_held (turned me p bin st a) i
      holding' i a na (inl now) (inl hit) _ =
          rw (current i, now, hit)
            (ap (λ b. v.next p == b) (eq_of_eqb a p hit)
              ∙ next_is p ne
              ∙ held-after (st p) me p in_hand)
      holding' i a na (inl now) (inr miss) (inl next) =
          rw (current i, now, miss, next) (next_is a na ∙ next ∙ sym now)
      holding' i a na (inl now) (inr miss) (inr other) =
          rw (current i, now, miss, other)
            (next_is a na
              ∙ other
              ∙ sym (
                  ap (is_held (st a)) (sym (eq_of_eqb me i now))
                  ∙ sym (d.holding me a na)
                  ∙ ap (λ b. b == a) mine
                  ∙ eqb_sym a p miss))
      holding' i a na (inr not_me) (inl hit) _ =
          rw (current i, not_me, hit)
            (ap (λ b. v.current i == b) (eq_of_eqb a p hit)
              ∙ d.holding i p ne
              ∙ held-held (st p) me i in_hand
              ∙ not_me)
      holding' i a na (inr not_me) (inr miss) (inl next) =
          rw (current i, not_me, miss, next)
            (d.holding i a na ∙ after-held (st a) p i next ∙ sym not_me)
      holding' i a na (inr not_me) (inr miss) (inr other) =
          rw (current i, not_me, miss, other) (d.holding i a na)

      following' :
          (q a : Ptr)
          → (a == nullptr) ≡ false
          → ((q == p) ≡ true) ⊎ ((q == p) ≡ false)
          → ((a == p) ≡ true) ⊎ ((a == p) ≡ false)
          → (is_after (st a) p ≡ true) ⊎ (is_after (st a) p ≡ false)
          → (is_pending (turned me p bin st q) && w.next q == a) ≡ is_after (turned me p bin st a) q
      following' q a na (inl hit) (inl self) _ = rw (still q, hit, self)
      following' q a na (inl hit) (inr miss) (inl next) = rw (still q, hit, miss, next)
      following' q a na (inl hit) (inr miss) (inr other) =
          rw (still q, hit, miss, other) (sym (ap (is_after (st a)) (eq_of_eqb q p hit) ∙ other))
      following' q a na (inr off) (inl self) _ =
          rw (still q, off, self, (same q off).1)
            (ap (λ b. is_pending (st q) && v.next q == b) (eq_of_eqb a p self)
              ∙ d.following q p ne
              ∙ held-after (st p) me q in_hand)
      following' q a na (inr off) (inr miss) (inl next) =
          rw (still q, off, miss, next, (same q off).1)
            (d.following q a na ∙ after-after (st a) p q next ∙ eqb_sym q p off)
      following' q a na (inr off) (inr miss) (inr other) =
          rw (still q, off, miss, other, (same q off).1) (d.following q a na)
