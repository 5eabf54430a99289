-- ===== src/CoJob/Void.antt =====
-- CoJob<void> and CoJobPromise<void> (src/job/co_job.inl, co_job_promise.h): a payload that is at most an
-- exception, and no value to deliver.
use bop.Common.{ℕ, zero, suc, Bool, true, false, Option, none, some, ◌==◌, if◌then◌else◌}
use bop.Memory.{Ptr, nullptr, Heap, Run, ok, fault, stuck, ◌>>=◌, load, write}
use bop.CoJob.{CoJob, Turn, suspends, returns, throws}

pub record VoidFrame (S : Type 0) : Type 0 where
  pub state : S
  pub payload : Option ℕ
  pub done : Bool

-- What await_resume delivers: nothing, or the exception of the coroutine.
pub data VoidDelivery : Type 0 where
  completes : VoidDelivery
  rethrows : ℕ → VoidDelivery

abbrev pub deliver_void : Option ℕ → VoidDelivery
deliver_void none = completes
deliver_void (some e) = rethrows e

module _ {S : Type 0} (body : S → Turn S (Unit {0})) where
  -- The body up to its next suspension; return_void or unhandled_exception, and final_suspend.
  abbrev pub take_void_turn : VoidFrame S → VoidFrame S
  take_void_turn f = elim (body f.state) [
    | suspends s' ↦ record { state = s'; payload = f.payload; done = false }
    | returns v ↦ record f { done = true }
    | throws e ↦ record f { payload = some e; done = true }
  ]

  unfoldable pub resume_void : Heap (VoidFrame S) → Ptr → Run (Heap (VoidFrame S))
  resume_void h p = do
    f ← load h p
    if f.done then fault else ok (write h p (some (take_void_turn f)))

  unfoldable pub run_void_to_end : ℕ → Heap (VoidFrame S) → Ptr → Run (Heap (VoidFrame S))
  unfolding resume_void
  run_void_to_end zero h p = stuck
  run_void_to_end (suc fuel) h p = if p == nullptr then ok h else do
    f ← load h p
    if f.done then ok h else (do h' ← resume_void h p; run_void_to_end fuel h' p)

  unfoldable pub await_resume_void :
      ℕ → Heap (VoidFrame S) → Ptr → Run (Heap (VoidFrame S) × VoidDelivery)
  unfolding run_void_to_end
  await_resume_void fuel h p = do
    h' ← run_void_to_end fuel h p
    f ← load h' p
    ok (h', deliver_void f.payload)

  abbrev pub get_void : ℕ → Heap (VoidFrame S) → CoJob → Run (Heap (VoidFrame S) × VoidDelivery)
  get_void fuel h job = await_resume_void fuel h job.handle

  unfoldable pub destroy_void_job : Heap (VoidFrame S) → Ptr → Run (Heap (VoidFrame S))
  destroy_void_job h p = if p == nullptr then ok h else do f ← load h p; ok (write h p none)
