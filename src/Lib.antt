-- ===== src/Lib.antt =====
-- bop: a thread pool for C++20 that executes jobs, with continuations, parents and work stealing.
--
-- The parts, and how they interact. A job (src/job/job.h, job.cpp, job.inl) holds a callable, a
-- counter of outstanding parts, a parent, a continuation and the link of the queue that it stands
-- in. A queue (src/job/job_queue.h, job_queue.cpp) is an intrusive list of jobs, with a flag as its
-- lock or without one. The pool (src/job/job_system.h, job_system.cpp, job_system.inl) owns the
-- jobs: schedule makes one, from the recycling bin of the calling thread or from its memory
-- resource, and puts it in a queue; a worker takes it from its own queues or steals it, calls it,
-- goes on with its continuation, and completes it, which climbs to its parent and puts finished jobs
-- back in a bin.
--
-- Which file models which part:
--   Common     native numbers, Boolean tests, lists, the uint32_t and uint64_t steps
--   Memory     pointers and the heap; Run, the outcome of code that may fault, spin or terminate
--   Queue      JobQueueNonThreadsafe: push, pop, clear, size, on any node type with a link field
--              (Linked). Links and Shape say which addresses a list stands for, Ops what each
--              operation does to them, Fifo what whole histories of calls answer
--   Job        Job, reset, operator() (call), wait; Calls what their callers rely on
--   JobQueue   JobQueue: the same list behind the flag; Locked its histories of calls by one thread;
--              Shared the steps of several threads on it, with Stages (who has the flag) and Linear
--              (the order in which their operations take effect)
--   JobSystem  the pool. State: the members of the class and the thread-local ones of each thread; a
--              queue is named by its Place. Inv: the well-formedness of the queues (Places), a push
--              and a pop at a place (Access), and writes to jobs (Stores). Schedule: create_job,
--              construct, schedule_work, schedule and then (then_job), with Create, Enqueue,
--              Continue, and Late (a continuation that comes too late). Complete: recycle,
--              job_completed, deallocate_job_queue, with Recycle, Family and Climb (the parents of a
--              job), and Deallocate. Worker: the loop of worker, in the
--              parts steal, pick_job, execute, execute_all, collect, worker_round and worker_exit;
--              below it Steal and Pick (the search for a job), Execute (one job), Chain (a chain of
--              continuations), Round (a whole round), Exit and Shutdown (the end of one worker and
--              of all). Start: the constructor, the start of a worker and its barrier, shutdown,
--              wait_for_shutdown, bop::schedule, the getters. Trace: save_tracelog; Json is the
--              library that it calls, Entry what is in an event, and Saved what is in the file.
--              Twice: what follows if a job is recycled two times. History: the operations of all
--              threads in any order, from the construction of the pool on. Ledger says where each
--              pending job is, with what an operation does to it (Enlist, Follow, Take, Turn,
--              Forget), and Account which callables are still to run; Sound connects the ledger to the
--              pool, Starts, Adds (with Chosen) and Works are the operations,
--              Reached what every history keeps, and Drained a pool that has run dry
--   Task       src/task: Task, its queue (TaskQueue, a history of which is one of the list behind a
--              free flag) and allocate_task of the scheduler (Scheduler)
--   Spinlock   src/util/spinlock.*: the atomic steps of each thread; Exclusion over every order of
--              them
--   RecursiveSpinLock  the same for the recursive lock: Inv, Moves, Exclusion
--   Generator  src/job/co_generator.*: the frame of a coroutine, its iterator and a range-based loop.
--              Loop: what a loop sees; Numbers: iota and range; Ownership: moves and destructors; Throws:
--              coroutines that throw, with Raise (what leaves the loop) and Agree (if none is thrown)
--   CoJob      src/job/co_job.* and co_job_promise.*: a coroutine that is awaited; Await: what it
--              delivers; Void: CoJob<void>; Erased: that it does what CoJob<T> does
--   Capture    src/main.cpp: CaptureSlots and CaptureLambda, which collect the arguments of a call;
--              Args, Counts and Slots: what they hold, Effects: functions without result or arguments
--   Reflection src/util/describe_object.h: operator<< of described objects, and serialize_impl of
--              integers; RoundTrip: calls of it one after the other
--   Curry      src/util/curry.h; Steps: calls in several steps
--   ManualLifetime  src/util/manual_lifetime.*; Uses: lifetimes one after the other
--   ScopeGuard src/util/scope_guard.*; Scopes: a scope with guards
--   FunctionTraits  src/util/function_traits.h; Agree: the traits against the signature
--   TypeList, Awaiter  src/util/typelist.h and src/util/traits.h
--   Application  the functions of src/main.cpp and what main does with captures; Demo: a chain of
--              continuations, and Main: the chain of jobs of main and its execution
--   Examples   a pool of three threads, task queues and the rest, at which the theorems are applied
--
-- How the code corresponds. A pointer is a number and nullptr is 0; the heap maps it to an object or
-- to none, so that a use of a dangling pointer is `fault`. A uint32_t is a number with its
-- wrap-around written out (inc32, dec32). std::terminate is `aborted`. A lock that is never given
-- back, and a loop whose fuel is used up, are `stuck`; a theorem says that code returns, so neither
-- occurs under its hypotheses. A std::function is a number, and what the function does is a
-- parameter of the code that calls it; the theorems on jobs that are executed ask of the functions
-- that each records that it has run, in the member called of Env, which no code of the pool writes. So are the clock, the values that wait reads, and the address
-- that the memory resource returns. Each thread of the pool is a number, which the operations take
-- for the thread-local members.
--
-- Fuel. job_completed takes a unit for each parent that it climbs to, deallocate_loop one for each
-- pop, steal one for each queue that it asks, execute_all one for each job of a chain of
-- continuations, wait one for each read, a loop over a generator one for each value, an await one
-- for each turn; the theorems ask for as much, or for one unit more, and show that it suffices.
--
-- Not modelled: the interleaving of threads inside one operation (a schedule, a then, a search for a
-- job, the execution of a job), but for the locks and for JobQueue, where the accesses to shared memory are in one total order; and the condition variable, which only ends a
-- pause early. The JSON library that save_tracelog calls is a parameter, with the behaviour that its
-- documentation states. Of src/util, concepts.h and overloaded.h only rename what the standard
-- library has. What does not compile is not modelled: src/util/function.*, of which no operation can
-- be instantiated (clone_data and destroy_data pass an object where a pointer is meant, and swap
-- exchanges the bytes of callables), and serialize of src/util/describe_object.h, with its overload of
-- serialize_impl for described objects.
pub mod Common
pub mod Memory
pub mod Queue
pub mod Job
pub mod JobQueue
pub mod JobSystem
pub mod Task
pub mod Spinlock
pub mod RecursiveSpinLock
pub mod Generator
pub mod CoJob
pub mod Capture
pub mod Reflection
pub mod Curry
pub mod ManualLifetime
pub mod ScopeGuard
pub mod FunctionTraits
pub mod TypeList
pub mod Awaiter
pub mod Application
pub mod Examples
