-- ===== src/Spinlock.antt =====
-- src/util/spinlock.h and src/util/spinlock.cpp: Spinlock, in the atomic steps of each thread. The
-- order of the steps of different threads is free, as one total order of the accesses to the flag.
pub mod Exclusion
use bop.Common.{ℕ, ◌≡◌, Bool, true, false, ◌==◌, if◌then◌else◌}

-- Where a thread is: not in lock() and without the lock; before the exchange in lock(); in the loop
-- that reads the flag; or behind an acquisition that it has not given back.
pub data Pc : Type 0 where
  outside exchanging waiting inside : Pc

pub record Spinlock : Type 0 where
  pub flag : Bool
  pub pc : ℕ → Pc

abbrev pub new_spinlock : Spinlock
new_spinlock = record { flag = false; pc = λ i. outside }

-- The flag after an access of thread `me`, and where that thread is then.
abbrev pub access : ℕ → Bool → Pc → Spinlock → Spinlock
access me flag p s = record { flag = flag; pc = λ i. if me == i then p else s.pc i }

-- The next step of lock(): its call, `m_Lock.exchange(true)`, or a read of the flag. A thread that
-- has the lock and calls lock() again waits for itself.
unfoldable pub lock : ℕ → Spinlock → Spinlock
lock me s = elim (s.pc me) [
  | outside ↦ access me s.flag exchanging s
  | exchanging ↦ if s.flag then access me true waiting s else access me true inside s
  | waiting ↦ if s.flag then access me s.flag waiting s else access me s.flag exchanging s
  | inside ↦ access me s.flag exchanging s
]

unfoldable pub try_lock : ℕ → Spinlock → Spinlock × Bool
try_lock me s =
    if s.flag then (access me true (s.pc me) s, false) else (access me true inside s, true)

unfoldable pub unlock : ℕ → Spinlock → Spinlock
unlock me s = access me false outside s
