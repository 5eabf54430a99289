-- ===== src/Job.antt =====
-- src/job/job.h and src/job/job.cpp: a job, how it is called, reset and waited for. The callable
-- of a job is client code: a job holds its number, and what it does is a parameter.
pub mod Calls
use bop.Common.{
  ℕ, zero, suc, ◌+◌, ◌≡◌, refl, Option, none, some, List, [], ◌∷◌, ◌==◌, if◌then◌else◌,
}
use bop.Memory.{Ptr, nullptr, Run, ok, ◌>>=◌}
use bop.Queue.{Linked}

-- std::function<void()>: empty, or the callable of that number.
pub data Work : Type 0 where
  no_work : Work
  callable : ℕ → Work

pub record Job : Type 0 where
  pub num_children : ℕ
  pub parent : Ptr
  pub continuation : Ptr
  pub next : Ptr
  pub thread_index : Option ℕ
  pub work : Work

-- `Job()`, with the defaults of the class.
abbrev pub new_job : Job
new_job = record {
  num_children = 1;
  parent = nullptr;
  continuation = nullptr;
  next = nullptr;
  thread_index = none;
  work = no_work;
}

unfoldable pub reset : Job → Job
reset j = record j { num_children = 1; next = nullptr; parent = nullptr; continuation = nullptr }

abbrev pub job_link : Linked Job
job_link = record {
  next = λ j. j.next;
  set_next = λ j p. record j { next = p };
  next_set = λ j p. refl;
  set_set = λ j p q. refl;
}

-- What leaves a callable: nothing, an object of a class below std::exception, or another object.
pub data Outcome : Type 0 where
  returned : Outcome
  threw : (what : ℕ) → Outcome
  threw_other : Outcome

-- A line of std::cerr.
pub data Line : Type 0 where
  job_exception : (what : ℕ) → Line
  unknown_exception : Line

-- The number that stands for std::bad_function_call, which an empty std::function throws.
abbrev pub bad_function_call : ℕ
bad_function_call = 0

-- The handlers of `operator()`.
abbrev pub caught : Outcome → List Line
caught returned = []
caught (threw what) = job_exception what ∷ []
caught threw_other = unknown_exception ∷ []

module _ {S : Type 0} (body : ℕ → S → Run (S × Outcome)) where
  unfoldable pub invoke : Work → S → Run (S × Outcome)
  invoke no_work s = ok (s, threw bad_function_call)
  invoke (callable f) s = body f s

  -- `operator()`: every exception ends here, as a line on std::cerr.
  unfoldable pub call : Job → S → Run (S × List Line)
  unfolding invoke
  call j s = do (s', out) ← invoke j.work s; ok (s', caught out)

-- `wait`. The counter is read once in each round, `reads` says what the other threads have made of
-- it by then. The result is the number of rounds that yield; `none` if the fuel runs out.
unfoldable pub wait : ℕ → (ℕ → ℕ) → ℕ → Option ℕ
wait zero reads i = none
wait (suc fuel) reads i =
    let rest = wait fuel reads (i + 1) in if reads i == 0 then some i else rest
