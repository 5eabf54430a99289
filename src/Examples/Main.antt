-- ===== src/Examples/Main.antt =====
-- What main does (src/main.cpp), with its own functions and on a pool of three threads.
use bop.Common.{◌≡◌, refl, List, [], ◌∷◌, arith}
use bop.Memory.{Ptr, ok, Returns}
use bop.Job.{Work, callable}
use bop.JobSystem.State.{global_queue}
use bop.JobSystem.Schedule.Enqueue.{Fits}
use bop.Application.{
  main_captures, slots_a, slots_b, ccc, ddd, not_all_set, result, variant_g, g_is_working,
}
use bop.Application.Demo.Main.{main_executed, main_executed-all_runs}
use bop.Examples.{recording, env, idle_pool, idle_pool-Inv}

-- The lines of the captures, in order.
captures :
    main_captures
    ≡ ok (
        slots_a 30
        ∷ slots_b 42
        ∷ ccc 12 13
        ∷ ddd
        ∷ not_all_set
        ∷ not_all_set
        ∷ result 99
        ∷ variant_g
        ∷ g_is_working
        ∷ [])
unfolding main_captures
captures = refl

env-Fits : Fits 1 env
env-Fits = record {
  some_thread = omega arith;
  threads = omega arith;
  queues = omega arith;
  index = omega arith;
  tidx = omega arith;
}

-- "3", "2", "1" and bop::shutdown.
abbrev continuations : List (Ptr × Work)
continuations = (10, callable 3) ∷ (11, callable 2) ∷ (12, callable 1) ∷ (13, callable 4) ∷ []

main_executed-all_runs_example :
    Returns
      (λ t. t.env.called ≡ 0 ∷ 3 ∷ 2 ∷ 1 ∷ 4 ∷ [])
      (main_executed recording
        (λ i s. i)
        0
        6
        1
        9
        (callable 0)
        continuations
        (global_queue 1)
        idle_pool)
main_executed-all_runs_example =
    main_executed-all_runs 1 9 (callable 0) continuations idle_pool (λ x. []) idle_pool-Inv env-Fits
      refl ((refl, refl), ((refl, refl), ((refl, refl), ((refl, refl), ((refl, refl), tt)))))
      (refl, (refl, (refl, (refl, (refl, tt))))) recording (λ i s. i) (λ f s. (refl, refl, refl)) 0
      6 refl (omega arith) (omega arith)
