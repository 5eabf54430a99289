-- ===== src/JobSystem/History/Works.antt =====
-- The steps of the workers in a history of the pool (src/job/job_system.cpp).
pub mod Picks
pub mod Executes
pub mod Collects
