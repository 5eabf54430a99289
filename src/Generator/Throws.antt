-- ===== src/Generator/Throws.antt =====
-- Coroutines of a Generator (src/job/co_generator.inl) that may throw: unhandled_exception throws on, out
-- of the `resume` that ran the body, and the coroutine is done.
pub mod Agree
pub mod Raise
use bop.Common.{
  ℕ, zero, suc, Bool, true, false, Option, none, some, List, [], ◌∷◌, ◌==◌, if◌then◌else◌,
}
use bop.Memory.{Ptr, nullptr, Heap, Run, ok, fault, stuck, ◌>>=◌, load, write}
use bop.Generator.{Frame, is_end, current}

-- What the body does when it is resumed: it yields a value, returns, or throws.
pub data Advance (S T : Type 0) : Type 0 where
  yields : T → S → Advance S T
  ends : Advance S T
  throws : ℕ → Advance S T

-- The value of code, or the exception that leaves it.
pub data Raised (A : Type 0) : Type 0 where
  returned : A → Raised A
  raised : ℕ → Raised A

module _ {S T : Type 0} where
  -- Suspended in a co_yield.
  abbrev pub yielded : S → T → Frame S T
  yielded s v = record { state = s; current_value = some v; done = false }

  -- The body up to the next yield_value, return_void, or unhandled_exception, which does not touch the
  -- promise.
  abbrev pub step_body : Advance S T → Frame S T → Frame S T × Raised (Unit {0})
  step_body (yields v s') f =
      (record { state = s'; current_value = some v; done = false }, returned tt)
  step_body ends f = (record { state = f.state; current_value = none; done = true }, returned tt)
  step_body (throws e) f =
      (record { state = f.state; current_value = f.current_value; done = true }, raised e)

  -- The rest of a `resume`, once the frame is read.
  abbrev pub resumed_to :
      Heap (Frame S T)
      → Ptr
      → Frame S T
      → Frame S T × Raised (Unit {0})
      → Run (Heap (Frame S T) × Raised (Unit {0}))
  resumed_to h p f (g, r) = if f.done then fault else ok (write h p (some g), r)

  -- What follows a `resume`, unless it throws.
  abbrev pub and_return :
      Heap (Frame S T) × Raised (Unit {0})
      → (Heap (Frame S T) → Run Ptr)
      → Run (Heap (Frame S T) × Raised Ptr)
  and_return (h, returned v) it = do p ← it h; ok (h, returned p)
  and_return (h, raised e) it = ok (h, raised e)

module _ {S T : Type 0} (body : S → Advance S T) where
  unfoldable pub resume_raising :
      Heap (Frame S T) → Ptr → Run (Heap (Frame S T) × Raised (Unit {0}))
  resume_raising h p = do f ← load h p; resumed_to h p f (step_body (body f.state) f)

  unfoldable pub begin_raising : Heap (Frame S T) → Ptr → Run (Heap (Frame S T) × Raised Ptr)
  begin_raising h coroutine =
      if coroutine == nullptr
      then ok (h, returned coroutine)
      else do r ← resume_raising h coroutine; and_return r (λ h'. ok coroutine)

  -- `++it`
  unfoldable pub increment_raising : Heap (Frame S T) → Ptr → Run (Heap (Frame S T) × Raised Ptr)
  increment_raising h it = do
    r ← resume_raising h it
    and_return r (λ h'. do f ← load h' it; ok (if f.done then nullptr else it))

  -- The rounds of a range-based for loop: the values that its body sees, and the exception that leaves
  -- the loop, if any.
  unfoldable pub loop_raising :
      ℕ → Heap (Frame S T) → Raised Ptr → Run (Heap (Frame S T) × List T × Option ℕ)
  loop_raising zero h it = stuck
  loop_raising (suc fuel) h (raised e) = ok (h, [], some e)
  loop_raising (suc fuel) h (returned it) = do
    ended ← is_end h it
    if ended then ok (h, [], none) else (do
      v ← current h it
      (h1, it1) ← increment_raising h it
      (h2, vs, e) ← loop_raising fuel h1 it1
      ok (h2, v ∷ vs, e))

  unfoldable pub for_each_raising :
      ℕ → Heap (Frame S T) → Ptr → Run (Heap (Frame S T) × List T × Option ℕ)
  for_each_raising fuel h coroutine = do
    (h1, it) ← begin_raising h coroutine
    loop_raising fuel h1 it
