-- ===== src/RecursiveSpinLock/Exclusion.antt =====
-- Mutual exclusion of a RecursiveSpinLock over every order of the steps of its threads
-- (src/util/spinlock.cpp).
use bop.Common.{ℕ, suc, ◌+◌, ◌^◌, ◌<◌, ◌≡◌, refl, sym, ◌∙◌, false, ◌==◌, arith}
use mathlib.Core.Bool.{false≢true}
use bop.RecursiveSpinLock.{
  idle, loading, trying, RecursiveSpinLock, new_lock, goto, get_local_hash, advance, unlock,
}
use bop.RecursiveSpinLock.Inv.{Inv}
use bop.RecursiveSpinLock.Moves.{goto-Inv, hashed-Inv, advance-Inv, unlock-Inv}

-- The steps of the threads. A thread enters lock() or try_lock() from outside, after its call of
-- get_local_hash, and unlock() with an acquisition. Neither the numbers nor the depth pass 64 bits.
pub data Step : RecursiveSpinLock → RecursiveSpinLock → Type 0 where
  hashes :
      (me : ℕ) (s : RecursiveSpinLock) → s.shared_id + 1 < 2 ^ 64 → Step s (get_local_hash me s)
  locks :
      (me : ℕ) (s : RecursiveSpinLock)
      → (s.threads me).pc ≡ idle
      → ((s.threads me).hash == 0) ≡ false
      → Step s (goto me loading s)
  tries :
      (me : ℕ) (s : RecursiveSpinLock)
      → (s.threads me).pc ≡ idle
      → ((s.threads me).hash == 0) ≡ false
      → Step s (goto me trying s)
  advances :
      (me : ℕ) (s : RecursiveSpinLock) → (s.threads me).depth + 1 < 2 ^ 64 → Step s (advance me s)
  unlocks :
      (me rest : ℕ) (s : RecursiveSpinLock)
      → (s.threads me).pc ≡ idle
      → (s.threads me).depth ≡ suc rest
      → suc rest < 2 ^ 64
      → Step s (unlock me rest s)

pub data Reachable : RecursiveSpinLock → Type 0 where
  start : Reachable new_lock
  after : {s t : RecursiveSpinLock} → Reachable s → Step s t → Reachable t

Reachable-Inv : (s : RecursiveSpinLock) → Reachable s → Inv s
Reachable-Inv s start = record {
  ids = λ i. omega arith;
  named = omega arith;
  distinct = λ i j ne e. absurd (false≢true (sym ne));
  owner = λ i o. absurd (false≢true o);
  back = λ i ne e. absurd (false≢true (sym ne));
  free = λ e. refl;
  asked = λ i a. absurd (false≢true a);
  none = λ i a. absurd (false≢true a);
}
Reachable-Inv t (after r (hashes me s small)) = hashed-Inv me s (Reachable-Inv s r) small
Reachable-Inv t (after r (locks me s at named)) =
    goto-Inv me loading s (Reachable-Inv s r) (rw at) (λ a. named) (λ a. absurd (false≢true a))
Reachable-Inv t (after r (tries me s at named)) =
    goto-Inv me trying s (Reachable-Inv s r) (rw at) (λ a. named) (λ a. absurd (false≢true a))
Reachable-Inv t (after r (advances me s small)) =
    advance-Inv me (s.threads me).pc s refl small (Reachable-Inv s r)
Reachable-Inv t (after r (unlocks me rest s at deep small)) =
    unlock-Inv me rest s (Reachable-Inv s r) at deep small

-- In every state that the threads can reach by their steps, as long as neither their numbers nor the
-- depth of an acquisition pass 64 bits: a thread that has the lock, however often, is the only one,
-- m_Semaphore is its hash, and m_Count says how often it has acquired the lock and not given it back.
pub Reachable-exclusive :
    (s : RecursiveSpinLock) (i : ℕ)
    → Reachable s
    → 0 < (s.threads i).depth
    → (s.semaphore ≡ (s.threads i).hash)
      × (s.count ≡ (s.threads i).depth)
      × ((j : ℕ) → 0 < (s.threads j).depth → i ≡ j)
Reachable-exclusive s i r deep =
    let v = Reachable-Inv s r in
    let d = v.owner i (ground (arith, deep)) in
    (d.0, d.2, λ j deep'. v.distinct i j d.1 (sym d.0 ∙ (v.owner j (ground (arith, deep'))).0))
