-- ===== src/JobSystem/Worker/Shutdown.antt =====
-- The end of a pool: its workers leave one after the other (src/job/job_system.cpp).
use bop.Common.{
  ℕ, suc, ◌^◌, ◌≤◌, ◌<◌, ◌≡◌, refl, sym, subst, ap, ◌∙◌, Bool, true, Option, some, ◌==◌, List, [],
  ◌∷◌, ◌++◌, arith, length, dec32, Bool-cases, inl, inr,
}
use bop.Memory.{Ptr, Run, ok, ◌>>=◌, Returns, Returns-bind, Returns-mono}
use bop.JobSystem.State.{
  Place, global_queue, local_queue, recycling_bin, garbage_bin, same_place, System, Env, JobTrace,
}
use bop.JobSystem.Inv.{Contents, Inv, put}
use bop.JobSystem.Complete.Deallocate.{Without}
use bop.JobSystem.Worker.{worker_exit}
use bop.JobSystem.Worker.Exit.{
  emptied, held_by, left, Exited, worker_exit-Exited, Without-append, length-append_4,
}

-- The exits of the workers `is`, in that order.
unfoldable pub exit_all : ℕ → List ℕ → System → Run System
exit_all fuel [] s = ok s
exit_all fuel (i ∷ is) s = do s1 ← worker_exit fuel i s; exit_all fuel is s1

abbrev pub emptied_all : List ℕ → Contents → Contents
emptied_all [] c = c
emptied_all (i ∷ is) c = emptied_all is (emptied i c)

abbrev pub held_by_all : List ℕ → Contents → List Ptr
held_by_all [] c = []
held_by_all (i ∷ is) c = held_by i c ++ held_by_all is (emptied i c)

-- The flag after the exits: the last one sets it.
abbrev pub completes : List ℕ → Bool → Bool
completes [] before = before
completes (i ∷ is) before = true

-- The traces that were saved: those of all threads, by the last one.
abbrev pub saves : List ℕ → Env → Option (ℕ → List JobTrace)
saves [] e = e.saved
saves (i ∷ is) e = some e.traces

pub record Ended (is : List ℕ) (s : System) (c : Contents) (t : System) : Type 0 where
  pub inv : Inv t (emptied_all is c)
  pub heap : Without (held_by_all is c) s.heap t.heap
  pub threads : t.num_threads ≡ 0
  pub complete : t.shutdown_complete ≡ completes is s.shutdown_complete
  pub saved : t.env.saved ≡ saves is s.env

-- Each worker of `is` has its number as its index and has its queues, and the fuel is enough for it.
abbrev pub Ready : ℕ → List ℕ → Env → Contents → Type 0
Ready fuel [] e c = Unit
Ready fuel (i ∷ is) e c =
    ((e.threads i).thread_index ≡ i)
    × (i < e.num_queues)
    × (length (held_by i c) < fuel)
    × Ready fuel is e c

put-length : (c : Contents) (x y : Place) → length (put c x [] y) ≤ length (c y)
put-length c x y = elim (Bool-cases (same_place x y)) [
  | inl hit ↦ rw hit (omega arith)
  | inr miss ↦ rw miss (omega arith)
]

emptied-length : (i : ℕ) (c : Contents) (y : Place) → length (emptied i c y) ≤ length (c y)
emptied-length i c y =
    let g1 = put c (global_queue i) [] in
    let g2 = put g1 (local_queue i) [] in
    let g3 = put g2 (recycling_bin i) [] in
    omega (
      arith,
      put-length c (global_queue i) y,
      put-length g1 (local_queue i) y,
      put-length g2 (recycling_bin i) y,
      put-length g3 (garbage_bin i) y,
    )

held_by-length : (i j : ℕ) (c : Contents) → length (held_by i (emptied j c)) ≤ length (held_by i c)
held_by-length i j c =
    let d = emptied j c in
    omega (
      arith,
      length-append_4 (c (global_queue i)) (c (local_queue i)) (c (recycling_bin i))
          (c (garbage_bin i)),
      length-append_4 (d (global_queue i)) (d (local_queue i)) (d (recycling_bin i))
          (d (garbage_bin i)),
      emptied-length j c (global_queue i),
      emptied-length j c (local_queue i),
      emptied-length j c (recycling_bin i),
      emptied-length j c (garbage_bin i),
    )

Ready-emptied :
    (fuel j : ℕ) (is : List ℕ) (e : Env) (c : Contents)
    → Ready fuel is e c
    → Ready fuel is (left e) (emptied j c)
Ready-emptied fuel j [] e c ready = tt
Ready-emptied fuel j (i ∷ is) e c (index, fits, enough, ready) =
    (index, fits, omega (arith, enough, held_by-length i j c), Ready-emptied fuel j is e c ready)

-- In a well-formed pool, with more fuel than any of the workers has jobs, let as many workers leave as
-- there are, in any order. Then the jobs of their queues and bins are freed and no other job, these
-- queues are empty, no worker is left, the shutdown is complete, and the traces of all threads were saved.
pub exit_all-Ended :
    (fuel : ℕ) (is : List ℕ) (s : System) (c : Contents)
    → Inv s c
    → Ready fuel is s.env c
    → length is ≡ s.num_threads
    → s.num_threads < 2 ^ 32
    → Returns (Ended is s c) (exit_all fuel is s)
unfolding exit_all
exit_all-Ended fuel [] s c inv ready count small = record {
  inv = inv;
  heap = λ a. refl;
  threads = sym count;
  complete = refl;
  saved = refl;
}
exit_all-Ended fuel (i ∷ is) s c inv (index, fits, enough, ready) count small =
    Returns-bind (Exited i s c) _ (worker_exit fuel i s) _
      (worker_exit-Exited fuel i s c inv index fits enough)
      λ t d.
        let fewer : dec32 s.num_threads ≡ length is = omega (arith, count, small) in
        let threads : t.num_threads ≡ length is = ap (λ (e : Env). e.num_threads) d.env ∙ fewer in
        Returns-mono (Ended is t (emptied i c)) _ (exit_all fuel is t)
          (exit_all-Ended fuel is t (emptied i c) d.inv
            (subst (λ e. Ready fuel is e (emptied i c)) (sym d.env)
              (Ready-emptied fuel i is s.env c ready))
            (sym threads) (omega (arith, threads, count, small)))
          λ u r. record {
            inv = r.inv;
            heap = Without-append s.heap t.heap u.heap (held_by i c) _ d.heap r.heap;
            threads = r.threads;
            complete = r.complete ∙ last is t d.env count;
            saved = r.saved ∙ last_saved is t d.env count;
          }
  where
    last :
        (js : List ℕ) (t : System)
        → t.env ≡ left s.env
        → suc (length js) ≡ s.num_threads
        → completes js t.shutdown_complete ≡ true
    last [] t e one = ap (λ (v : Env). v.shutdown_complete) e ∙ ground (arith, one)
    last (j ∷ js) t e more = refl

    last_saved :
        (js : List ℕ) (t : System)
        → t.env ≡ left s.env
        → suc (length js) ≡ s.num_threads
        → saves js t.env ≡ some s.env.traces
    last_saved [] t e one =
        let alone : (s.num_threads == 1) ≡ true = ground (arith, one) in
        ap (λ (v : Env). v.saved) e ∙ rw alone
    last_saved (j ∷ js) t e more = ap (λ (v : Env). some v.traces) e
