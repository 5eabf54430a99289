-- ===== src/JobSystem/Worker/Exit.antt =====
-- What the workers of a pool leave behind once their loops have ended (src/job/job_system.cpp).
use bop.Common.{
  ℕ, ◌+◌, ◌<◌, ◌≡◌, refl, sym, subst, ap, ◌∙◌, true, some, List, [], ◌++◌, arith, mem-append,
  length, length-append, dec32, ◌==◌, if◌then◌else◌, lt→ltb,
}
use bop.Memory.{Ptr, Heap, Returns, Returns-bind}
use bop.Job.{Job}
use bop.JobSystem.State.{global_queue, local_queue, recycling_bin, garbage_bin, System, Env}
use bop.JobSystem.Inv.{Contents, Inv, put}
use bop.JobSystem.Complete.{deallocate_job_queue}
use bop.JobSystem.Complete.Deallocate.{Without, Deallocated, deallocate_job_queue-Deallocated}
use bop.JobSystem.Worker.{worker_exit}

-- The queues of the worker `i` emptied, and what they held.
abbrev pub emptied : ℕ → Contents → Contents
emptied i c =
    put (put (put (put c (global_queue i) []) (local_queue i) []) (recycling_bin i) [])
      (garbage_bin i) []

abbrev pub held_by : ℕ → Contents → List Ptr
held_by i c =
    c (global_queue i) ++ (c (local_queue i) ++ (c (recycling_bin i) ++ c (garbage_bin i)))

-- The members after an exit: one worker less, and if it was the last, the traces are saved and the shutdown
-- has ended.
abbrev pub left : Env → Env
left e = record e {
  num_threads = dec32 e.num_threads;
  shutdown_complete = if e.num_threads == 1 then true else e.shutdown_complete;
  saved = if e.num_threads == 1 then some e.traces else e.saved;
}

pub record Exited (i : ℕ) (s : System) (c : Contents) (t : System) : Type 0 where
  pub inv : Inv t (emptied i c)
  pub heap : Without (held_by i c) s.heap t.heap
  pub env : t.env ≡ left s.env

pub Without-append :
    (f g h : Heap Job) (ps qs : List Ptr) → Without ps f g → Without qs g h → Without (ps ++ qs) f h
Without-append f g h ps qs d e a = ground (arith, d a, e a, mem-append a ps qs)

pub length-append_4 :
    (ps qs rs ts : List Ptr)
    → length (ps ++ (qs ++ (rs ++ ts))) ≡ length ps + (length qs + (length rs + length ts))
length-append_4 ps qs rs ts =
    omega
      (arith, length-append ps (qs ++ (rs ++ ts)), length-append qs (rs ++ ts), length-append rs ts)

module _ (fuel me : ℕ) (s : System) (c : Contents) (inv : Inv s c)
    (index : (s.threads me).thread_index ≡ me) (fits : me < s.num_queues)
    (enough : length (held_by me c) < fuel) where
  abbrev c1 : Contents
  c1 = put c (global_queue me) []

  abbrev c2 : Contents
  c2 = put c1 (local_queue me) []

  abbrev c3 : Contents
  c3 = put c2 (recycling_bin me) []

  sizes :
      length (held_by me c)
      ≡ length (c (global_queue me))
        + (length (c (local_queue me))
            + (length (c (recycling_bin me)) + length (c (garbage_bin me))))
  sizes =
      length-append_4 (c (global_queue me)) (c (local_queue me)) (c (recycling_bin me))
        (c (garbage_bin me))

  -- In a well-formed pool, on a thread that has its queues, and with more fuel than jobs in them,
  -- the exit of a worker frees the jobs of its global queue, of its local queue and of its two bins,
  -- and no other job. It leaves these queues empty and counts the worker out; the shutdown is
  -- complete if it was the last one, and the traces are saved.
  pub worker_exit-Exited : Returns (Exited me s c) (worker_exit fuel me s)
  unfolding worker_exit
  worker_exit-Exited = rw index (
      Returns-bind (Deallocated s c (global_queue me)) _
        (deallocate_job_queue fuel (global_queue me) s) _
        (deallocate_job_queue-Deallocated (global_queue me) fuel s c inv (lt→ltb _ _ fits)
          (omega (arith, sizes, enough)))
        λ s1 d1.
          Returns-bind (Deallocated s1 c1 (local_queue me)) _
            (deallocate_job_queue fuel (local_queue me) s1) _
            (deallocate_job_queue-Deallocated (local_queue me) fuel s1 c1 d1.inv
              (lt→ltb _ _ (subst (λ (e : Env). me < e.num_queues) (sym d1.env) fits))
              (omega (arith, sizes, enough)))
            λ s2 d2.
              Returns-bind (Deallocated s2 c2 (recycling_bin me)) _
                (deallocate_job_queue fuel (recycling_bin me) s2) _
                (deallocate_job_queue-Deallocated (recycling_bin me) fuel s2 c2 d2.inv refl
                  (omega (arith, sizes, enough)))
                λ s3 d3.
                  Returns-bind (Deallocated s3 c3 (garbage_bin me)) _
                    (deallocate_job_queue fuel (garbage_bin me) s3) _
                    (deallocate_job_queue-Deallocated (garbage_bin me) fuel s3 c3 d3.inv refl
                      (omega (arith, sizes, enough)))
                    λ s4 d4. record {
                      inv = record { idle = d4.inv.idle; apart = d4.inv.apart };
                      heap = Without-append s.heap s1.heap s4.heap (c (global_queue me)) _ d1.heap (
                          Without-append s1.heap s2.heap s4.heap (c (local_queue me)) _ d2.heap (
                            Without-append s2.heap s3.heap s4.heap (c (recycling_bin me)) _ d3.heap
                              d4.heap));
                      env = ap left (d4.env ∙ d3.env ∙ d2.env ∙ d1.env);
                    })
