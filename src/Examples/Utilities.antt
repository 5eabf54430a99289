-- ===== src/Examples/Utilities.antt =====
-- The theorems on the spinlock, the generators and the captures, at concrete inputs
-- (src/util/spinlock.cpp, src/job/co_generator.inl, src/main.cpp).
use bop.Common.{
  ℕ, ◌+◌, ◌*◌, ◌^◌, ◌-◌, ◌<◌, ◌≡◌, refl, Bool, true, false, Option, none, some, List, [], ◌∷◌, ◌==◌,
  if◌then◌else◌, arith,
}
use bop.Memory.{Ptr, nullptr, Heap, stuck, Returns}
use bop.Spinlock.{Spinlock, new_spinlock, lock, unlock, waiting, inside}
use bop.Spinlock.Exclusion.{
  locks, Reachable, start, after, IsExclusive, Reachable-IsExclusive, lock-unlock,
}
use bop.Generator.{Frame, new_frame, for_each}
use bop.Generator.Loop.{Looped, for_each-Looped}
use bop.Generator.Throws.{Advance, yields, throws, for_each_raising}
use bop.Generator.Throws.Raise.{LeftBy, for_each-LeftBy}
use bop.Generator.Numbers.{Suspended, initial, range, for_each-range, range_endless}
use bop.Generator.Ownership.{Owners, IsOwned, assigns, step, step-IsOwned}
use bop.Capture.{new_capture, call_capture}
use bop.Capture.Counts.{set_args, Answered, call_capture-set_args}
use bop.Capture.Slots.{set_args_slots, call_capture-set_args_slots}

-- Thread 0 has the lock, and thread 1 waits for it.
abbrev contended : Spinlock
contended = lock 1 (lock 1 (lock 0 (lock 0 new_spinlock)))

contended-Reachable : Reachable contended
unfolding lock
contended-Reachable =
    after (after (after (after start (locks 0 _ refl)) (locks 0 _ refl)) (locks 1 _ refl))
      (locks 1 _ refl)

Reachable-IsExclusive_example : IsExclusive contended
Reachable-IsExclusive_example = Reachable-IsExclusive contended contended-Reachable

waits : contended.pc 1 ≡ waiting
unfolding lock
waits = refl

lock-unlock_example : (lock 1 (lock 1 (unlock 0 contended))).pc 1 ≡ inside
lock-unlock_example = lock-unlock 0 1 contended refl waits

-- A coroutine that was called, at address 4.
abbrev called : Heap (Frame Suspended ℕ)
called a = if a == 4 then some (new_frame initial) else none

for_each-range_example : Returns (λ r. r.1 ≡ 1 ∷ 4 ∷ 7 ∷ []) (for_each (range 8 1 8 3) 4 called 4)
for_each-range_example =
    for_each-range 8 1 8 3 (omega arith) 4 3 called 4 (omega arith, λ k lt. omega (arith, lt)) refl
      refl (omega arith)

-- The body yields its state, and counts it down.
abbrev countdown : ℕ → Option (ℕ × ℕ)
countdown n = if n == 0 then none else some (n, n - 1)

abbrev suspended : Heap (Frame ℕ ℕ)
suspended a = if a == 4 then some (new_frame 2) else none

for_each-Looped_example :
    Returns (Looped countdown suspended 4 (2 ∷ 1 ∷ [])) (for_each countdown 3 suspended 4)
for_each-Looped_example =
    for_each-Looped countdown 3 suspended 4 (new_frame 2) (2 ∷ 1 ∷ []) refl refl refl
      (1, refl, (0, refl, refl)) (omega arith)

-- The body counts its state down, and throws 9 at zero.
abbrev countdown_failing : ℕ → Advance ℕ ℕ
countdown_failing n = if n == 0 then throws 9 else yields n (n - 1)

for_each-LeftBy_example :
    Returns
      (LeftBy countdown_failing suspended 4 (2 ∷ 1 ∷ []) 9)
      (for_each_raising countdown_failing 3 suspended 4)
for_each-LeftBy_example =
    for_each-LeftBy countdown_failing 3 suspended 4 (new_frame 2) (2 ∷ 1 ∷ []) 9 refl refl refl
      (1, refl, (0, refl, refl)) (omega arith)

range_endless_example : for_each (range 32 6 (2 ^ 32 - 1) 2) 100 called 4 ≡ stuck
range_endless_example = range_endless 6 100 called 4 refl (omega arith) refl refl

-- Generator 0 owns the coroutine at 4, and generator 1 that at 5.
abbrev owners : Owners
owners = record {
  live = λ a. if a == 4 then true else a == 5;
  coroutine = λ g. if g == 0 then 4 else if g == 1 then 5 else nullptr;
}

owners-IsOwned : IsOwned owners
owners-IsOwned = record {
  null_free = refl;
  owns = λ g ne. ground arith;
  once = λ g k ne e. ground arith;
  no_leak = λ p m. if_owned p m;
}
  where
    if_owned : (p : Ptr) → owners.live p ≡ true → (g : ℕ) × (owners.coroutine g ≡ p)
    if_owned p m = elim (bop.Common.Bool-cases (p == 4)) [
      | bop.Common.inl hit ↦ (0, ground arith)
      | bop.Common.inr miss ↦ (1, ground arith)
    ]

step-IsOwned_example : IsOwned (step owners (assigns 0 1))
step-IsOwned_example = step-IsOwned owners (assigns 0 1) tt owners-IsOwned

abbrev product : List ℕ → ℕ
product [] = 1
product (x ∷ xs) = x * product xs

call_capture-set_args_example :
    Returns
      (Answered product 2 ((0, 3) ∷ (0, 5) ∷ (1, 6) ∷ []))
      (call_capture product (set_args ((0, 3) ∷ (0, 5) ∷ (1, 6) ∷ []) (new_capture 2)))
call_capture-set_args_example =
    call_capture-set_args product 2 ((0, 3) ∷ (0, 5) ∷ (1, 6) ∷ []) (omega arith)
      (omega arith, (omega arith, (omega arith, tt)))

call_capture-set_args_slots_example :
    Returns
      (Answered product 2 ((1, 6) ∷ (0, 5) ∷ []))
      (call_capture product (set_args_slots ((1, 6) ∷ (0, 5) ∷ []) (new_capture 2)))
call_capture-set_args_slots_example =
    call_capture-set_args_slots product 2 ((1, 6) ∷ (0, 5) ∷ []) (omega arith)
      (omega arith, (omega arith, tt)) (refl, (refl, tt))
