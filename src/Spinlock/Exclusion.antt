-- ===== src/Spinlock/Exclusion.antt =====
-- Mutual exclusion of a Spinlock over every order of the steps of its threads.
use bop.Common.{
  ℕ, ◌≡◌, refl, sym, subst, ap, ◌∙◌, Bool, true, false, ◌==◌, if◌then◌else◌, arith, Bool-cases,
  eq_of_eqb, eqb_refl, inl, inr,
}
use mathlib.Core.Bool.{false≢true}
use bop.Spinlock.{
  Pc, outside, exchanging, waiting, inside, Spinlock, new_spinlock, access, lock, try_lock, unlock,
}

abbrev pub is_inside : Pc → Bool
is_inside inside = true
is_inside _ = false

-- The steps of the threads. A thread calls lock() or try_lock() without the lock, and unlock() with it.
pub data Step : Spinlock → Spinlock → Type 0 where
  locks : (me : ℕ) (s : Spinlock) → is_inside (s.pc me) ≡ false → Step s (lock me s)
  tries : (me : ℕ) (s : Spinlock) → s.pc me ≡ outside → Step s (try_lock me s).0
  unlocks : (me : ℕ) (s : Spinlock) → s.pc me ≡ inside → Step s (unlock me s)

pub data Reachable : Spinlock → Type 0 where
  start : Reachable new_spinlock
  after : {s t : Spinlock} → Reachable s → Step s t → Reachable t

-- The flag is set exactly while a thread has the lock, and then it is the only one.
pub record IsExclusive (s : Spinlock) : Type 0 where
  pub flagged : (i : ℕ) → is_inside (s.pc i) ≡ true → s.flag ≡ true
  pub alone : (i j : ℕ) → is_inside (s.pc i) ≡ true → is_inside (s.pc j) ≡ true → i ≡ j
  pub held : s.flag ≡ true → (i : ℕ) × (is_inside (s.pc i) ≡ true)

-- A thread without the lock moves, and has it not then either.
moved :
    (me : ℕ) (p : Pc) (s : Spinlock)
    → is_inside (s.pc me) ≡ false
    → is_inside p ≡ false
    → IsExclusive s
    → IsExclusive (access me s.flag p s)
moved me p s was now ex = record {
  flagged = λ i m. ex.flagged i (same i ∙ m);
  alone = λ i j m m'. ex.alone i j (same i ∙ m) (same j ∙ m');
  held = λ set. let (i, m) = ex.held set in (i, sym (same i) ∙ m);
}
  where
    same : (i : ℕ) → is_inside (s.pc i) ≡ is_inside (if me == i then p else s.pc i)
    same i = elim (Bool-cases (me == i)) [
      | inl hit ↦ rw (hit, sym (eq_of_eqb me i hit)) (was ∙ sym now)
      | inr miss ↦ rw miss
    ]

-- With the flag clear, a thread takes the lock.
taken :
    (me : ℕ) (s : Spinlock) → s.flag ≡ false → IsExclusive s → IsExclusive (access me true inside s)
taken me s clear ex = record {
  flagged = λ i m. refl;
  alone = λ i j m m'. sym (me_only i m) ∙ me_only j m';
  held = λ set. (me, rw (eqb_refl me));
}
  where
    me_only : (i : ℕ) → is_inside (if me == i then inside else s.pc i) ≡ true → me ≡ i
    me_only i m = elim (Bool-cases (me == i)) [
      | inl hit ↦ eq_of_eqb me i hit
      | inr miss ↦ absurd (false≢true (sym clear ∙ ex.flagged i (rw miss at m)))
    ]

given_back :
    (me : ℕ) (s : Spinlock)
    → s.pc me ≡ inside
    → IsExclusive s
    → IsExclusive (access me false outside s)
given_back me s has ex = record {
  flagged = λ i m. absurd (false≢true (sym (nobody i) ∙ m));
  alone = λ i j m m'. absurd (false≢true (sym (nobody i) ∙ m));
  held = λ set. absurd (false≢true set);
}
  where
    nobody : (i : ℕ) → is_inside (if me == i then outside else s.pc i) ≡ false
    nobody i = elim (Bool-cases (me == i)) [
      | inl hit ↦ rw hit
      | inr miss ↦ rw miss (elim (Bool-cases (is_inside (s.pc i))) [
        | inl m ↦ ground (arith, ex.alone me i (ap is_inside has) m)
        | inr out ↦ out
      ])
    ]

lock-IsExclusive :
    (me : ℕ) (s : Spinlock) (p : Pc)
    → s.pc me ≡ p
    → is_inside p ≡ false
    → IsExclusive s
    → IsExclusive (lock me s)
unfolding lock
lock-IsExclusive me s outside e out ex =
    rw (lock, e) (moved me exchanging s (ap is_inside e) refl ex)
lock-IsExclusive me s exchanging e out ex = elim (Bool-cases s.flag) [
  | inl set ↦
      rw (lock, e, set)
        (subst (λ b. IsExclusive (access me b waiting s)) set
          (moved me waiting s (ap is_inside e) refl ex))
  | inr clear ↦ rw (lock, e, clear) (taken me s clear ex)
]
lock-IsExclusive me s waiting e out ex = elim (Bool-cases s.flag) [
  | inl set ↦
      rw (lock, e, set)
        (subst (λ b. IsExclusive (access me b waiting s)) set
          (moved me waiting s (ap is_inside e) refl ex))
  | inr clear ↦
      rw (lock, e, clear)
        (subst (λ b. IsExclusive (access me b exchanging s)) clear
          (moved me exchanging s (ap is_inside e) refl ex))
]
lock-IsExclusive me s inside e out ex = absurd (false≢true (sym out))

-- In every state that the threads can reach by their steps, the flag is set exactly while a thread
-- has the lock, and no two threads have it.
pub Reachable-IsExclusive : (s : Spinlock) → Reachable s → IsExclusive s
unfolding try_lock unlock
Reachable-IsExclusive s start = record {
  flagged = λ i m. absurd (false≢true m);
  alone = λ i j m m'. absurd (false≢true m);
  held = λ set. absurd (false≢true set);
}
Reachable-IsExclusive t (after r (locks me s out)) =
    lock-IsExclusive me s (s.pc me) refl out (Reachable-IsExclusive s r)
Reachable-IsExclusive t (after r (tries me s out)) = elim (Bool-cases s.flag) [
  | inl set ↦ rw set (
      subst (λ b. IsExclusive (access me b (s.pc me) s)) set
        (moved me (s.pc me) s (ap is_inside out) (ap is_inside out) (Reachable-IsExclusive s r)))
  | inr clear ↦ rw clear (taken me s clear (Reachable-IsExclusive s r))
]
Reachable-IsExclusive t (after r (unlocks me s has)) =
    given_back me s has (Reachable-IsExclusive s r)

-- In every state that the threads can reach, try_lock returns true exactly if no thread has the lock.
try_lock_lem :
    (me : ℕ) (s : Spinlock)
    → Reachable s
    → ((try_lock me s).1 ≡ true → (i : ℕ) → is_inside (s.pc i) ≡ false)
      × ((try_lock me s).1 ≡ false → (i : ℕ) × (is_inside (s.pc i) ≡ true))
unfolding try_lock
try_lock_lem me s r = elim (Bool-cases s.flag) [
  | inl set ↦ rw set (λ e. absurd (false≢true e), λ e. ex.held set)
  | inr clear ↦ rw clear (λ e i. nobody i clear, λ e. absurd (false≢true (sym e)))
]
  where
    ex : IsExclusive s
    ex = Reachable-IsExclusive s r

    nobody : (i : ℕ) → s.flag ≡ false → is_inside (s.pc i) ≡ false
    nobody i clear = elim (Bool-cases (is_inside (s.pc i))) [
      | inl m ↦ absurd (false≢true (sym clear ∙ ex.flagged i m))
      | inr out ↦ out
    ]

lock_wakes :
    (j : ℕ) (s : Spinlock)
    → s.pc j ≡ waiting
    → s.flag ≡ false
    → lock j s ≡ access j false exchanging s
unfolding lock
lock_wakes j s e clear = rw (lock, e, clear)

lock_wins :
    (j : ℕ) (s : Spinlock)
    → s.pc j ≡ exchanging
    → s.flag ≡ false
    → lock j s ≡ access j true inside s
unfolding lock
lock_wins j s e clear = rw (lock, e, clear)

-- A thread that waits in lock() for another one has the lock two of its steps after that one has
-- given it back, if no other thread moves in between.
pub lock-unlock :
    (i j : ℕ) (s : Spinlock)
    → (i == j) ≡ false
    → s.pc j ≡ waiting
    → (lock j (lock j (unlock i s))).pc j ≡ inside
unfolding unlock
lock-unlock i j s other waits =
    let u = unlock i s in
    let first_step : lock j u ≡ access j false exchanging u =
      lock_wakes j u (rw (other, waits)) refl in
    let second_step : lock j (access j false exchanging u)
        ≡ access j true inside (access j false exchanging u) =
      lock_wins j (access j false exchanging u) (rw (eqb_refl j)) refl in
    rw (first_step, second_step, eqb_refl j)
