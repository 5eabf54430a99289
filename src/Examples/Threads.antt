-- ===== src/Examples/Threads.antt =====
-- Two threads on one JobQueue (src/job/job_queue.cpp): one pushes a job, and the other, which finds
-- the flag set and spins, pops it.
use bop.Common.{◌≡◌, refl, [], ◌∷◌}
use bop.Memory.{load, write}
use bop.Queue
use bop.Queue.Fifo
use bop.Queue.Fifo.{pushes, pops, done, popped}
use bop.Job.{job_link}
use bop.JobQueue.Shared.{
  spinning, Shared, new_shared, set_stage, test_and_set, read_list, write_list, clear_flag,
  calls_it, tries, reads, writes, leaves, Reachable, start, after,
}
use bop.JobQueue.Shared.Stages.{IsLinear}
use bop.JobQueue.Shared.Linear.{Reachable-IsLinear}
use bop.Examples.{jobs}

abbrev called : Shared
called = set_stage 1 (spinning pops) (set_stage 0 (spinning (pushes 1)) (new_shared jobs))

abbrev entered_first : Shared
entered_first = test_and_set 1 pops (test_and_set 0 (pushes 1) called)

abbrev read_first : Shared
read_first = read_list 0 (pushes 1) entered_first

abbrev pushed : Shared
pushed =
    write_list 0 (pushes 1) (Fifo.step job_link (read_first.heap, read_first.queue.list) (pushes 1))
      read_first

abbrev read_second : Shared
read_second = read_list 1 pops (test_and_set 1 pops (clear_flag 0 pushed))

abbrev popped_it : Shared
popped_it =
    write_list 1 pops (Fifo.step job_link (read_second.heap, read_second.queue.list) pops)
      read_second

two_answers : popped_it.answers ≡ done ∷ popped 1 ∷ []
unfolding Fifo.step Queue.push Queue.pop load write
two_answers = refl

called-Reachable : Reachable jobs called
called-Reachable = after (after start (calls_it 0 (pushes 1) _ refl)) (calls_it 1 pops _ refl)

pushed-Reachable : Reachable jobs pushed
pushed-Reachable =
    after
      (after (after (after called-Reachable (tries 0 (pushes 1) _ refl)) (tries 1 pops _ refl))
        (reads 0 (pushes 1) _ refl))
      (writes 0 (pushes 1) _ _ _ refl ((refl, refl), refl))

popped_it-Reachable : Reachable jobs popped_it
unfolding Fifo.step Queue.push Queue.pop load write
popped_it-Reachable =
    after
      (after (after (after pushed-Reachable (leaves 0 done _ refl)) (tries 1 pops _ refl))
        (reads 1 pops _ refl))
      (writes 1 pops _ _ _ refl tt)

Reachable-IsLinear_example : IsLinear popped_it
Reachable-IsLinear_example = Reachable-IsLinear jobs popped_it popped_it-Reachable
