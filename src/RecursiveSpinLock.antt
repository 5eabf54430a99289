-- ===== src/RecursiveSpinLock.antt =====
-- src/util/spinlock.h and src/util/spinlock.cpp: RecursiveSpinLock, in the steps of each thread. The
-- accesses to m_Semaphore are atomic, and come in one total order.
pub mod Inv
pub mod Moves
pub mod Exclusion
use bop.Common.{ℕ, ◌+◌, ◌≡◌, Bool, true, false, inc64, dec64, ◌==◌, if◌then◌else◌}

-- Where a thread is: outside the operations; before the load in lock() or in try_lock(); before the
-- exchange in lock() or in try_lock(); in the loop of lock() that reads the semaphore; before
-- `++m_Count`; before the store in unlock().
pub data Pc : Type 0 where
  idle loading trying comparing try_comparing waiting counting releasing : Pc

-- `hash` is t_hash, and 0 before it is initialised. `depth` counts the acquisitions of the thread
-- that it has not given back; no code reads it.
pub record Thread : Type 0 where
  pub hash : ℕ
  pub pc : Pc
  pub depth : ℕ

pub record RecursiveSpinLock : Type 0 where
  pub semaphore : ℕ
  pub count : ℕ
  pub shared_id : ℕ
  pub threads : ℕ → Thread

abbrev pub new_lock : RecursiveSpinLock
new_lock = record {
  semaphore = 0;
  count = 0;
  shared_id = 1;
  threads = λ i. record { hash = 0; pc = idle; depth = 0 };
}

-- Thread `me` has moved, and the semaphore and the counter are new.
abbrev pub update : ℕ → Thread → ℕ → ℕ → RecursiveSpinLock → RecursiveSpinLock
update me th semaphore count s = record {
  semaphore = semaphore;
  count = count;
  shared_id = s.shared_id;
  threads = λ i. if me == i then th else s.threads i;
}

abbrev pub goto : ℕ → Pc → RecursiveSpinLock → RecursiveSpinLock
goto me p s = update me (record (s.threads me) { pc = p }) s.semaphore s.count s

-- A call of get_local_hash: the first one of a thread takes the next number.
unfoldable pub get_local_hash : ℕ → RecursiveSpinLock → RecursiveSpinLock
get_local_hash me s =
    if (s.threads me).hash == 0
    then record s {
      shared_id = inc64 s.shared_id;
      threads = λ i. if me == i then record (s.threads me) { hash = s.shared_id } else s.threads i;
    }
    else s

-- The next step of a thread in an operation.
unfoldable pub advance : ℕ → RecursiveSpinLock → RecursiveSpinLock
advance me s =
    let th = s.threads me in
    elim th.pc [
      | idle ↦ s
      | loading ↦ if s.semaphore == th.hash then goto me counting s else goto me comparing s
      | trying ↦
          if s.semaphore == 0
          then goto me try_comparing s
          else if s.semaphore == th.hash
          then goto me counting s
          else goto me idle s
      | comparing ↦
          if s.semaphore == 0
          then update me (record th { pc = counting }) th.hash s.count s
          else goto me waiting s
      | try_comparing ↦
          if s.semaphore == 0
          then update me (record th { pc = counting }) th.hash s.count s
          else goto me idle s
      | waiting ↦ if s.semaphore == 0 then goto me comparing s else s
      | counting ↦
          update me (record th { pc = idle; depth = th.depth + 1 }) s.semaphore (inc64 s.count) s
      | releasing ↦ update me (record th { pc = idle }) 0 s.count s
    ]

-- `--m_Count`, and the test of it.
unfoldable pub unlock : ℕ → ℕ → RecursiveSpinLock → RecursiveSpinLock
unlock me rest s =
    let th = s.threads me in
    let count = dec64 s.count in
    update me (record th { pc = if count == 0 then releasing else idle; depth = rest }) s.semaphore
      count s
