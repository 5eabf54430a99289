-- ===== src/Examples/Lifecycle.antt =====
-- The theorems on the start and the end of the pool, at concrete inputs (src/job/job_system.cpp).
use bop.Common.{refl, some, [], ◌∷◌, arith}
use bop.Memory.{Returns}
use bop.JobSystem.Start.{job_system, new_process}
use bop.JobSystem.Start.Once.{Started, job_system-Started}
use bop.JobSystem.Worker.Shutdown.{Ended, exit_all, exit_all-Ended}
use bop.Examples.{jobs, pool, queued, pool-Inv}

-- The platform has eight threads, and the program asks for none: it has one.
job_system-Started_example : Started 1 20 (job_system 8 100 (some 0) 20 (new_process jobs))
job_system-Started_example = job_system-Started 8 100 (some 0) 20 jobs (omega arith)

exit_all-Ended_example :
    Returns (Ended (2 ∷ 0 ∷ 1 ∷ []) pool queued) (exit_all 2 (2 ∷ 0 ∷ 1 ∷ []) pool)
exit_all-Ended_example =
    exit_all-Ended 2 (2 ∷ 0 ∷ 1 ∷ []) pool queued pool-Inv
      (
        refl,
        omega arith,
        omega arith,
        (refl, omega arith, omega arith, (refl, omega arith, omega arith, tt)),
      )
      refl (omega arith)
