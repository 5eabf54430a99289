-- ===== src/JobSystem/Inv.antt =====
-- The well-formedness of the queues of the pool (src/job/job_system.h): each stands for a list of
-- jobs, and no job is in two.
mod Places
mod Access
mod Stores
pub use Places.*
pub use Access.*
pub use Stores.*
