-- ===== src/Task.antt =====
-- src/task/task.h and src/task/task.inl: a task, how it is reset and called. What its function
-- pointer or its callable does is a parameter.
pub mod TaskQueue
pub mod Scheduler
use bop.Common.{ℕ, zero, suc, ◌+◌, ◌≡◌, refl, Option, none, some, ◌==◌, if◌then◌else◌}
use bop.Memory.{Ptr, nullptr, Run, ok, aborted, ◌>>=◌}
use bop.Queue.{Linked}
use bop.Job.{Work, no_work, callable, Outcome, returned, threw, threw_other, invoke}

pub record Task : Type 0 where
  pub num_dependencies : ℕ
  pub parent : Ptr
  pub next_link : Ptr
  pub thread_index : Option ℕ
  pub continuation : Ptr
  pub function_ptr : Option ℕ
  pub work : Work

-- `Task()`, with the defaults of both classes.
abbrev pub new_task : Task
new_task = record {
  num_dependencies = 1;
  parent = nullptr;
  next_link = nullptr;
  thread_index = none;
  continuation = nullptr;
  function_ptr = none;
  work = no_work;
}

unfoldable pub reset : Task → Task
reset t = record t {
  num_dependencies = 1;
  next_link = nullptr;
  parent = nullptr;
  thread_index = none;
}

abbrev pub set_thread_index : Task → ℕ → Task
set_thread_index t i = record t { thread_index = some i }

abbrev pub task_link : Linked Task
task_link = record {
  next = λ t. t.next_link;
  set_next = λ t p. record t { next_link = p };
  next_set = λ t p. refl;
  set_set = λ t p q. refl;
}

-- `operator()` is noexcept: an exception that would leave it ends the program.
abbrev pub noexcept : {S : Type 0} → S × Outcome → Run S
noexcept (s, returned) = ok s
noexcept (s, threw what) = aborted
noexcept (s, threw_other) = aborted

module _ {S : Type 0} (body : ℕ → S → Run (S × Outcome)) where
  unfoldable pub call_task : Task → S → Run S
  call_task t s = elim t.function_ptr [
    | none ↦ invoke body t.work s >>= noexcept
    | some f ↦ body f s >>= noexcept
  ]

-- TaskBase::wait. m_NumDependencies is read once in each round; the result is the number of rounds that
-- yield, and `none` if the fuel runs out.
unfoldable pub wait_task : ℕ → (ℕ → ℕ) → ℕ → Option ℕ
wait_task zero reads i = none
wait_task (suc fuel) reads i =
    let rest = wait_task fuel reads (i + 1) in if reads i == 0 then some i else rest
