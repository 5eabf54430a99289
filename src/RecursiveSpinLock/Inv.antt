-- ===== src/RecursiveSpinLock/Inv.antt =====
-- What the threads and the words of a RecursiveSpinLock (src/util/spinlock.cpp) have to do with each
-- other.
use bop.Common.{
  ℕ, ◌<◌, ◌≡◌, sym, ap, ◌∙◌, Bool, true, false, ◌||◌, ltb, ◌==◌, if◌then◌else◌, Bool-cases,
  eq_of_eqb, inl, inr,
}
use bop.RecursiveSpinLock.{
  Pc, idle, comparing, try_comparing, waiting, counting, releasing, Thread, RecursiveSpinLock,
  update,
}

-- The thread is the one that m_Semaphore names.
abbrev pub at_end : Pc → Bool
at_end counting = true
at_end releasing = true
at_end _ = false

abbrev pub is_owner : Thread → Bool
is_owner th = ltb 0 th.depth || at_end th.pc

-- The thread has called get_local_hash; the thread has no acquisition.
abbrev pub asks : Pc → Bool
asks idle = false
asks counting = false
asks releasing = false
asks _ = true

abbrev pub has_none : Pc → Bool
has_none comparing = true
has_none try_comparing = true
has_none waiting = true
has_none releasing = true
has_none _ = false

pub record Inv (s : RecursiveSpinLock) : Type 0 where
  pub ids : (i : ℕ) → (s.threads i).hash < s.shared_id
  pub named : s.semaphore < s.shared_id
  pub distinct :
      (i j : ℕ)
      → ((s.threads i).hash == 0) ≡ false
      → (s.threads i).hash ≡ (s.threads j).hash
      → i ≡ j
  pub owner :
      (i : ℕ)
      → is_owner (s.threads i) ≡ true
      → (s.semaphore ≡ (s.threads i).hash)
        × (((s.threads i).hash == 0) ≡ false)
        × (s.count ≡ (s.threads i).depth)
  pub back :
      (i : ℕ)
      → ((s.threads i).hash == 0) ≡ false
      → s.semaphore ≡ (s.threads i).hash
      → is_owner (s.threads i) ≡ true
  pub free : s.semaphore ≡ 0 → s.count ≡ 0
  pub asked : (i : ℕ) → asks (s.threads i).pc ≡ true → ((s.threads i).hash == 0) ≡ false
  pub none : (i : ℕ) → has_none (s.threads i).pc ≡ true → (s.threads i).depth ≡ 0

-- A thread keeps its hash and moves, and what it changes is its own.
pub record Moves (me : ℕ) (th : Thread) (semaphore count : ℕ) (s : RecursiveSpinLock) : Type 0 where
  pub hash : th.hash ≡ (s.threads me).hash
  pub named : semaphore < s.shared_id
  pub owner :
      is_owner th ≡ true → (semaphore ≡ th.hash) × ((th.hash == 0) ≡ false) × (count ≡ th.depth)
  pub back : (th.hash == 0) ≡ false → semaphore ≡ th.hash → is_owner th ≡ true
  pub others :
      (k : ℕ)
      → (me == k) ≡ false
      → is_owner (s.threads k) ≡ true
      → (semaphore ≡ s.semaphore) × (count ≡ s.count)
  pub others_back :
      (k : ℕ)
      → (me == k) ≡ false
      → ((s.threads k).hash == 0) ≡ false
      → semaphore ≡ (s.threads k).hash
      → s.semaphore ≡ (s.threads k).hash
  pub free : semaphore ≡ 0 → count ≡ 0
  pub asked : asks th.pc ≡ true → (th.hash == 0) ≡ false
  pub none : has_none th.pc ≡ true → th.depth ≡ 0

pub moved :
    (me : ℕ) (th : Thread) (semaphore count : ℕ) (s : RecursiveSpinLock)
    → Inv s
    → Moves me th semaphore count s
    → Inv (update me th semaphore count s)
moved me th semaphore count s v m = record {
  ids = λ i. elim (Bool-cases (me == i)) [
    | inl hit ↦ rw (hit, m.hash) (v.ids me)
    | inr miss ↦ rw miss (v.ids i)
  ];
  named = m.named;
  distinct =
      λ i j ne e. v.distinct i j (ap (λ n. n == 0) (same i) ∙ ne) (same i ∙ e ∙ sym (same j));
  owner = λ i. elim (Bool-cases (me == i)) [
    | inl hit ↦ rw hit m.owner
    | inr miss ↦
        rw miss
          (λ o. let (e, e') = m.others i miss o in let d = v.owner i o in (e ∙ d.0, d.1, e' ∙ d.2))
  ];
  back = λ i. elim (Bool-cases (me == i)) [
    | inl hit ↦ rw hit m.back
    | inr miss ↦ rw miss (λ ne e. v.back i ne (m.others_back i miss ne e))
  ];
  free = m.free;
  asked = λ i. elim (Bool-cases (me == i)) [
    | inl hit ↦ rw hit m.asked
    | inr miss ↦ rw miss (v.asked i)
  ];
  none =
      λ i. elim (Bool-cases (me == i)) [ inl hit ↦ rw hit m.none | inr miss ↦ rw miss (v.none i) ];
}
  where
    same : (i : ℕ) → (s.threads i).hash ≡ (if me == i then th else s.threads i).hash
    same i = elim (Bool-cases (me == i)) [
      | inl hit ↦ rw hit (ap (λ k. (s.threads k).hash) (sym (eq_of_eqb me i hit)) ∙ sym m.hash)
      | inr miss ↦ rw miss
    ]
