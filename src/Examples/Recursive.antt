-- ===== src/Examples/Recursive.antt =====
-- The theorem on the recursive spinlock, at a concrete input (src/util/spinlock.cpp).
use bop.Common.{ℕ, ◌<◌, ◌≡◌, refl, arith}
use bop.RecursiveSpinLock.{loading, RecursiveSpinLock, new_lock, goto, get_local_hash, advance}
use bop.RecursiveSpinLock.Exclusion.{
  hashes, locks, advances, Reachable, start, after, Reachable-exclusive,
}

-- Thread 3 has the lock twice.
abbrev once : RecursiveSpinLock
once = advance 3 (advance 3 (advance 3 (goto 3 loading (get_local_hash 3 new_lock))))

abbrev twice : RecursiveSpinLock
twice = advance 3 (advance 3 (goto 3 loading once))

once-Reachable : Reachable once
unfolding get_local_hash advance
once-Reachable =
    after
      (after
        (after (after (after start (hashes 3 new_lock (omega arith))) (locks 3 _ refl refl))
          (advances 3 _ (omega arith)))
        (advances 3 _ (omega arith)))
      (advances 3 _ (omega arith))

twice-Reachable : Reachable twice
unfolding get_local_hash advance
twice-Reachable =
    after (after (after once-Reachable (locks 3 once refl refl)) (advances 3 _ (omega arith)))
      (advances 3 _ (omega arith))

deep : 0 < (twice.threads 3).depth
unfolding get_local_hash advance
deep = omega arith

Reachable-exclusive_example :
    (twice.semaphore ≡ (twice.threads 3).hash)
    × (twice.count ≡ (twice.threads 3).depth)
    × ((j : ℕ) → 0 < (twice.threads j).depth → 3 ≡ j)
Reachable-exclusive_example = Reachable-exclusive twice 3 twice-Reachable deep
