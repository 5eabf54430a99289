-- ===== src/Generator.antt =====
-- src/job/co_generator.h and src/job/co_generator.inl: Generator, its iterator and the range-based
-- loop over it. The body of a coroutine is a function from the state at which it is suspended to
-- what it yields next, and to the state at which it is suspended then; `none`: it returns.
pub mod Loop
pub mod Numbers
pub mod Ownership
pub mod Throws
use bop.Common.{
  ℕ, zero, suc, Bool, true, false, not, Option, none, some, List, [], ◌∷◌, ◌==◌, if◌then◌else◌,
}
use bop.Memory.{Ptr, nullptr, Heap, Run, ok, fault, stuck, ◌>>=◌, load, write}

-- A coroutine on the heap: where it is suspended, and m_CurrentValue of its promise.
pub record Frame (S T : Type 0) : Type 0 where
  pub state : S
  pub current_value : Option T
  pub done : Bool

-- A coroutine that was called, and is suspended before its body.
abbrev pub new_frame : {S T : Type 0} → S → Frame S T
new_frame s = record { state = s; current_value = none; done = false }

-- `it == end()`
unfoldable pub is_end : {S T : Type 0} → Heap (Frame S T) → Ptr → Run Bool
is_end h it = if it == nullptr then ok true else (do f ← load h it; ok f.done)

-- `*it`. There must be a value.
unfoldable pub current : {S T : Type 0} → Heap (Frame S T) → Ptr → Run T
current h it = do f ← load h it; elim f.current_value [ none ↦ fault | some v ↦ ok v ]

-- `it.operator->()`: the value, or none for a null pointer.
abbrev arrow : {S T : Type 0} → Heap (Frame S T) → Ptr → Run (Option T)
arrow h it = do f ← load h it; ok f.current_value

module _ {S T : Type 0} (body : S → Option (T × S)) where
  -- The body up to the next yield_value, or up to return_void.
  abbrev pub advance : Frame S T → Frame S T
  advance f = elim (body f.state) [
    | none ↦ record { state = f.state; current_value = none; done = true }
    | some (v, s') ↦ record { state = s'; current_value = some v; done = false }
  ]

  -- `resume()` of a handle. A coroutine that is done must not be resumed.
  unfoldable pub resume : Heap (Frame S T) → Ptr → Run (Heap (Frame S T))
  resume h p = do f ← load h p; if f.done then fault else ok (write h p (some (advance f)))

  unfoldable pub begin : Heap (Frame S T) → Ptr → Run (Heap (Frame S T) × Ptr)
  begin h coroutine =
      if coroutine == nullptr
      then ok (h, coroutine)
      else do h' ← resume h coroutine; ok (h', coroutine)

  -- `++it`
  unfoldable pub increment : Heap (Frame S T) → Ptr → Run (Heap (Frame S T) × Ptr)
  increment h it = do h' ← resume h it; f ← load h' it; ok (h', if f.done then nullptr else it)

  -- The rounds of a range-based for loop, with the values that its body sees.
  unfoldable pub loop : ℕ → Heap (Frame S T) → Ptr → Run (Heap (Frame S T) × List T)
  loop zero h it = stuck
  loop (suc fuel) h it = do
    ended ← is_end h it
    if ended then ok (h, []) else (do
      v ← current h it
      (h1, it1) ← increment h it
      (h2, vs) ← loop fuel h1 it1
      ok (h2, v ∷ vs))

  unfoldable pub for_each : ℕ → Heap (Frame S T) → Ptr → Run (Heap (Frame S T) × List T)
  for_each fuel h coroutine = do (h1, it) ← begin h coroutine; loop fuel h1 it

-- Two iterators are equal if they are of the same coroutine.
abbrev iter_equal : Ptr → Ptr → Bool
iter_equal it other = it == other

abbrev iter_unequal : Ptr → Ptr → Bool
iter_unequal it other = not (iter_equal it other)
