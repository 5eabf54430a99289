-- ===== src/CoJob.antt =====
-- src/job/co_job.h, co_job.inl, co_job_promise.h and co_job_promise.inl: a coroutine that is awaited by
-- running it to its end. Its body is a function from the state at which it is suspended to what it
-- does when it is resumed.
pub mod Await
pub mod Void
pub mod Erased
use bop.Common.{ℕ, zero, suc, ◌≡◌, Bool, true, false, Option, none, some, ◌==◌, if◌then◌else◌}
use bop.Memory.{Ptr, nullptr, Heap, Run, ok, fault, stuck, ◌>>=◌, load, write}

-- A CoJob owns the handle of its coroutine, which it makes from the promise.
pub record CoJob : Type 0 where
  pub handle : Ptr

abbrev pub co_job : Ptr → CoJob
co_job promise = record { handle = promise }

-- A CoJob is never ready, so that `co_await` suspends; await_suspend then does nothing.
abbrev await_ready : CoJob → Bool
await_ready job = false

abbrev await_suspend : {S : Type 0} → Heap S → CoJob → (parent : Ptr) → Heap S
await_suspend h job parent = h

-- One turn of the body: it is suspended again, returns a value, or ends by an exception.
pub data Turn (S T : Type 0) : Type 0 where
  suspends : S → Turn S T
  returns : T → Turn S T
  throws : ℕ → Turn S T

-- m_Payload: std::monostate, the value, or the exception.
pub data Payload (T : Type 0) : Type 0 where
  monostate : Payload T
  value : T → Payload T
  exception : ℕ → Payload T

pub record CoFrame (S T : Type 0) : Type 0 where
  pub state : S
  pub payload : Payload T
  pub done : Bool

-- What await_resume delivers: the value, the exception of the coroutine, or std::runtime_error.
pub data Delivery (T : Type 0) : Type 0 where
  delivers : T → Delivery T
  rethrows : ℕ → Delivery T
  empty_state : Delivery T

abbrev pub deliver : {T : Type 0} → Payload T → Delivery T
deliver monostate = empty_state
deliver (value v) = delivers v
deliver (exception e) = rethrows e

module _ {S T : Type 0} (body : S → Turn S T) where
  -- The body up to its next suspension; return_value or unhandled_exception, and final_suspend.
  abbrev pub take_turn : CoFrame S T → CoFrame S T
  take_turn f = elim (body f.state) [
    | suspends s' ↦ record { state = s'; payload = f.payload; done = false }
    | returns v ↦ record f { payload = value v; done = true }
    | throws e ↦ record f { payload = exception e; done = true }
  ]

  unfoldable pub resume : Heap (CoFrame S T) → Ptr → Run (Heap (CoFrame S T))
  resume h p = do f ← load h p; if f.done then fault else ok (write h p (some (take_turn f)))

  -- `while (m_Handle && !m_Handle.done()) m_Handle.resume();`
  unfoldable pub run_to_end : ℕ → Heap (CoFrame S T) → Ptr → Run (Heap (CoFrame S T))
  unfolding resume
  run_to_end zero h p = stuck
  run_to_end (suc fuel) h p =
      if p == nullptr
      then ok h
      else do f ← load h p; if f.done then ok h else (do h' ← resume h p; run_to_end fuel h' p)

  unfoldable pub await_resume : ℕ → Heap (CoFrame S T) → Ptr → Run (Heap (CoFrame S T) × Delivery T)
  unfolding run_to_end
  await_resume fuel h p = do h' ← run_to_end fuel h p; f ← load h' p; ok (h', deliver f.payload)

  abbrev pub get : ℕ → Heap (CoFrame S T) → CoJob → Run (Heap (CoFrame S T) × Delivery T)
  get fuel h job = await_resume fuel h job.handle

  -- `~CoJob`: a handle that is not null is destroyed.
  unfoldable pub destroy_job : Heap (CoFrame S T) → Ptr → Run (Heap (CoFrame S T))
  destroy_job h p = if p == nullptr then ok h else do f ← load h p; ok (write h p none)
