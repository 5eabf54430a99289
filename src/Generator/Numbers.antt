-- ===== src/Generator/Numbers.antt =====
-- iota and range (src/job/co_generator.inl), for an unsigned integer type of `w` bits.
use bop.Common.{
  fun_ext, ℕ, zero, suc, ◌+◌, ◌-◌, ◌*◌, ◌%◌, ◌^◌, ◌≤◌, ◌<◌, ◌≡◌, refl, ap, false, Option, none,
  some, List, [], ◌∷◌, arith, length, ltb, ◌==◌, if◌then◌else◌, lt→ltb,
}
use native.Mathlib.Nat.{mod-eq_of_lt}
use bop.Memory.{Ptr, nullptr, Heap, stuck, Returns, Returns-mono}
use bop.Generator.{Frame, new_frame, for_each}
use bop.Generator.Loop.{Yields, Looped, for_each-Looped, for_each_endless}

-- Where the coroutine is suspended: before its body, or in the co_yield of its loop.
pub data Suspended : Type 0 where
  initial : Suspended
  in_loop : ℕ → Suspended

module _ (w : ℕ) where
  -- The test of the for loop, with the value that it goes on with.
  abbrev pub iota_test : ℕ → ℕ → Option (ℕ × Suspended)
  iota_test up_to value = if ltb value up_to then some (value, in_loop value) else none

  abbrev pub iota : ℕ → Suspended → Option (ℕ × Suspended)
  iota up_to initial = iota_test up_to 0
  iota up_to (in_loop value) = iota_test up_to ((value + 1) % 2 ^ w)

  abbrev pub range_test : ℕ → ℕ → Option (ℕ × Suspended)
  range_test last first = if ltb first last then some (first, in_loop first) else none

  abbrev pub range : ℕ → ℕ → ℕ → Suspended → Option (ℕ × Suspended)
  range first last step initial = range_test last first
  range first last step (in_loop here) = range_test last ((here + step) % 2 ^ w)

-- `n` numbers from `a` on, each `step` above the one before.
abbrev pub upward : ℕ → ℕ → ℕ → List ℕ
upward a step zero = []
upward a step (suc n) = a ∷ upward (a + step) step n

length-upward : (a step n : ℕ) → length (upward a step n) ≡ n
length-upward a step zero = refl
length-upward a step (suc n) = ap suc (length-upward (a + step) step n)

-- `n` is the number of values from `a` on, each `step` above the one before, that are below `last`.
abbrev pub IsCount : ℕ → ℕ → ℕ → ℕ → Type 0
IsCount a last step n = (last ≤ a + n * step) × ((k : ℕ) → k < n → a + k * step < last)

IsCount-suc : (a last step n : ℕ) → IsCount a last step (suc n) → IsCount (a + step) last step n
IsCount-suc a last step n (end, below) =
    (ground (arith, end), λ k lt. ground (arith, below (suc k) (omega (arith, lt))))

range_test-below :
    (w first last : ℕ) → first < last → range_test w last first ≡ some (first, in_loop first)
range_test-below w first last lt = rw (lt→ltb first last lt)

range_test-above : (w first last : ℕ) → last ≤ first → range_test w last first ≡ none
range_test-above w first last le = ground (arith, le)

module _ (w first last step : ℕ) (fits : last + step ≤ 2 ^ w) where
  range-Yields :
      (n here : ℕ)
      → here < last
      → IsCount (here + step) last step n
      → Yields (range w first last step) (in_loop here) (upward (here + step) step n)
  range-Yields zero here lt (end, below) =
      let same : (here + step) % 2 ^ w ≡ here + step = mod-eq_of_lt (omega (arith, lt, fits)) in
      rw same (range_test-above w (here + step) last (ground (arith, end)))
  range-Yields (suc n) here lt count =
      let same : (here + step) % 2 ^ w ≡ here + step = mod-eq_of_lt (omega (arith, lt, fits)) in
      let below : here + step < last = ground (arith, count.1 0 (omega arith)) in
      (
        in_loop (here + step),
        rw same (range_test-below w (here + step) last below),
        range-Yields n (here + step) below (IsCount-suc (here + step) last step n count),
      )

  range-Yields_all :
      (n : ℕ)
      → IsCount first last step n
      → Yields (range w first last step) initial (upward first step n)
  range-Yields_all zero (end, below) = range_test-above w first last (ground (arith, end))
  range-Yields_all (suc n) count =
      let below : first < last = ground (arith, count.1 0 (omega arith)) in
      (
        in_loop first,
        range_test-below w first last below,
        range-Yields n first below (IsCount-suc first last step n count),
      )

  -- A loop over range(first, last, step), whose `last` and `step` do not pass the end of the type
  -- together, ends and sees the `n` numbers from `first` on, `step` apart, that are below `last`.
  pub for_each-range :
      (fuel n : ℕ) (h : Heap (Frame Suspended ℕ)) (p : Ptr)
      → IsCount first last step n
      → (p == nullptr) ≡ false
      → h p ≡ some (new_frame initial)
      → n < fuel
      → Returns (λ r. r.1 ≡ upward first step n) (for_each (range w first last step) fuel h p)
  for_each-range fuel n h p count ne e enough =
      Returns-mono (Looped (range w first last step) h p (upward first step n)) _
        (for_each (range w first last step) fuel h p)
        (for_each-Looped (range w first last step) fuel h p (new_frame initial)
          (upward first step n) ne e refl (range-Yields_all n count)
          (rw (length-upward first step n) enough))
        λ r d. d.values

iota-range : (w up_to : ℕ) → iota w up_to ≡ range w 0 up_to 1
iota-range w up_to = fun_ext same
  where
    same : (s : Suspended) → iota w up_to s ≡ range w 0 up_to 1 s
    same initial = refl
    same (in_loop value) = refl

-- A loop over iota(up_to), whose bound is below the largest value of the type or is that value, ends
-- and sees the numbers from 0 on that are below the bound, in order.
for_each-iota :
    (w up_to fuel : ℕ) (h : Heap (Frame Suspended ℕ)) (p : Ptr)
    → up_to < 2 ^ w
    → (p == nullptr) ≡ false
    → h p ≡ some (new_frame initial)
    → up_to < fuel
    → Returns (λ r. r.1 ≡ upward 0 1 up_to) (for_each (iota w up_to) fuel h p)
for_each-iota w up_to fuel h p fits ne e enough = rw (iota-range w up_to) (
    for_each-range w 0 up_to 1 (omega (arith, fits)) fuel up_to h p
      (ground arith, λ k lt. ground (arith, lt)) ne e enough)

-- The values that a range of even numbers is suspended with.
abbrev IsEven : ℕ → Suspended → Type 0
IsEven first initial = Unit
IsEven first (in_loop here) = (here % 2 ≡ 0) × (here < 2 ^ 32)

-- A loop over range(first, last, 2) for uint32_t, with an even `first` and the largest value of the type
-- as `last`, never ends: the sum wraps round below `last`.
pub range_endless :
    (first fuel : ℕ) (h : Heap (Frame Suspended ℕ)) (p : Ptr)
    → first % 2 ≡ 0
    → first < 2 ^ 32
    → (p == nullptr) ≡ false
    → h p ≡ some (new_frame initial)
    → for_each (range 32 first (2 ^ 32 - 1) 2) fuel h p ≡ stuck
range_endless first fuel h p even small ne e =
    for_each_endless (range 32 first (2 ^ 32 - 1) 2) (IsEven first) again fuel h p
      (new_frame initial) ne e refl tt
  where
    next_value :
        (v : ℕ) → v % 2 ≡ 0 → v < 2 ^ 32 → range_test 32 (2 ^ 32 - 1) v ≡ some (v, in_loop v)
    next_value v v_even v_small =
        range_test-below 32 v (2 ^ 32 - 1) (omega (arith, v_even, v_small))

    again :
        (s : Suspended)
        → IsEven first s
        → (v : ℕ) × (s' : Suspended) × (range 32 first (2 ^ 32 - 1) 2 s ≡ some (v, s'))
          × IsEven first s'
    again initial d = (first, in_loop first, next_value first even small, (even, small))
    again (in_loop here) (here_even, here_small) =
        let v = (here + 2) % 2 ^ 32 in
        let v_even : (here + 2) % 2 ^ 32 % 2 ≡ 0 = omega (arith, here_even) in
        let v_small : (here + 2) % 2 ^ 32 < 2 ^ 32 = omega arith in
        (v, in_loop v, next_value v v_even v_small, (v_even, v_small))
