-- ===== src/JobSystem.antt =====
-- src/job/job_system.h, src/job/job_system.cpp, src/job/job_system.inl and src/job/job.inl: the
-- thread pool. Its static members and the thread-local ones of every thread are one state.
pub mod State
pub mod Start
pub mod Trace
pub mod Schedule
pub mod Complete
pub mod Worker
pub mod Inv
pub mod History
pub mod Twice
