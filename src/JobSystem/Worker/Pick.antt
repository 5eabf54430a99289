-- ===== src/JobSystem/Worker/Pick.antt =====
-- Where a worker finds its next job (src/job/job_system.cpp).
use bop.Common.{
  ℕ, ◌^◌, ◌≤◌, ◌<◌, ◌≡◌, refl, sym, subst, ap, ◌∙◌, false, List, [], ◌∷◌, arith, mem_self,
  List-cases, first, tail, dec32, ◌==◌, ap₂, if◌then◌else◌, lt→ltb, inl, inr,
}
use bop.Memory.{Ptr, nullptr, Run, ok, ◌>>=◌, Returns, Returns-bind, Returns-mono}
use bop.JobSystem.State.{Place, global_queue, local_queue, System, Env, set_thread, pop_at}
use bop.JobSystem.Inv.{Contents, Inv, put, put_self, PoppedAt, pop_at-PoppedAt, queued-IsLive}
use bop.JobSystem.Worker.{steal, pick_job}
use bop.JobSystem.Worker.Steal.{
  ring, stolen_of, left_of, Stolen, steal-Stolen, steal_held, steal_rounds,
}

-- The queues of others that are asked by the worker `me`.
abbrev pub victims : ℕ → Env → List ℕ
victims me e = ring e.num_threads (e.threads me).steal_from (steal_rounds e.num_threads)

-- The job that the worker finds: in its local queue, else in its own global queue, else in the first
-- of the others that holds one; and what it leaves.
abbrev pub picked : ℕ → Env → Contents → Ptr
picked me e c = elim (c (local_queue me)) [
  | p ∷ ps ↦ p
  | [] ↦ elim (c (global_queue me)) [ p ∷ ps ↦ p | [] ↦ stolen_of c (victims me e) ]
]

abbrev pub left_behind : ℕ → Env → Contents → Contents
left_behind me e c = elim (c (local_queue me)) [
  | p ∷ ps ↦ put c (local_queue me) ps
  | [] ↦ elim (c (global_queue me)) [
    | p ∷ ps ↦ put c (global_queue me) ps
    | [] ↦ left_of c (victims me e)
  ]
]

-- The members after the search: the current job of the worker, and where it steals next.
abbrev pub after_pick : ℕ → Ptr → ℕ → Env → Env
after_pick me p from e = record e {
  threads = λ i.
      if me == i then record (e.threads me) { current_job = p; steal_from = from } else e.threads i;
}

abbrev pub IsPicking : ℕ → Ptr → Env → Env → Type 0
IsPicking me p later e = (from : ℕ) × (from < e.num_threads) × (later ≡ after_pick me p from e)

pub record Picked (me : ℕ) (s : System) (p : Ptr) (d : Contents) (r : System × Ptr) : Type 0 where
  pub inv : Inv r.0 d
  pub job : r.1 ≡ p
  pub current : (r.0.threads me).current_job ≡ p
  pub heap : r.0.heap ≡ s.heap
  pub members : IsPicking me p r.0.env s.env

module _ (fuel me : ℕ) where
  -- The loop that steals, and the assignments of its end.
  abbrev rest : System × Ptr → Run (System × Ptr)
  rest (s2, job2) =
      steal fuel (dec32 s2.num_threads) (s2.threads me).steal_from job2 s2
      >>= λ (s3, job3, from, asked). ok (
        set_thread s3 me (record (s3.threads me) { current_job = job3; steal_from = from }),
        job3,
      )

  pub record IsFitting (e : Env) : Type 0 where
    pub some_thread : 0 < e.num_threads
    pub queues : e.num_threads ≤ e.num_queues
    pub small : e.num_threads < 2 ^ 32
    pub bound : (e.threads me).steal_from < e.num_threads

  rest_held :
      (s : System) (p : Ptr) (d : Contents)
      → Inv s d
      → (p == nullptr) ≡ false
      → (s.threads me).steal_from < s.num_threads
      → 0 < fuel
      → Returns (Picked me s p d) (rest (s, p))
  rest_held s p d inv ne bound enough =
      rw (steal_held fuel (dec32 s.num_threads) (s.threads me).steal_from p s ne enough) (record {
        inv = record { idle = inv.idle; apart = inv.apart };
        job = refl;
        current = ground arith;
        heap = refl;
        members = ((s.threads me).steal_from, bound, refl);
      })

  rest_steals :
      (s : System) (d : Contents)
      → Inv s d
      → IsFitting s.env
      → steal_rounds s.num_threads < fuel
      → Returns
          (Picked me s (stolen_of d (victims me s.env)) (left_of d (victims me s.env)))
          (rest (s, nullptr))
  rest_steals s d inv fits enough =
      let k = steal_rounds s.num_threads in
      let count : dec32 (dec32 s.num_threads) ≡ k = ground (arith, fits.some_thread, fits.small) in
      Returns-bind (Stolen s d (victims me s.env)) _
        (steal fuel (dec32 s.num_threads) (s.threads me).steal_from nullptr s) _
        (steal-Stolen s.num_threads fuel k (dec32 s.num_threads) (s.threads me).steal_from s d inv
          refl fits.queues fits.small fits.bound (ground (arith, fits.small)) count enough)
        λ (t, q, from, asked) r. record {
          inv = record { idle = r.inv.idle; apart = r.inv.apart };
          job = r.job;
          current = ground (arith, r.job);
          heap = r.heap;
          members = (from, r.bound, ap₂ (λ x e. after_pick me x from e) r.job r.env);
        }

  module _ (s : System) (c : Contents) (inv : Inv s c) (index : (s.threads me).thread_index ≡ me)
      (fits : IsFitting s.env) (own : me < s.num_queues)
      (enough : steal_rounds s.num_threads < fuel) (some_fuel : 0 < fuel) where
    -- The pop of a queue `x` that holds a job.
    popped_held :
        (x : Place) (p : Ptr) (ps : List Ptr) (r : System × Ptr) (t : System)
        → t.heap ≡ s.heap
        → t.env ≡ s.env
        → Inv t c
        → c x ≡ p ∷ ps
        → PoppedAt t c x r
        → Returns (Picked me s p (put c x ps)) (rest r)
    popped_held x p ps (u, q) t h g inv' e d =
        let at_p : q ≡ p = d.job ∙ ap (λ l. first l nullptr) e in
        let ne : (p == nullptr) ≡ false = (queued-IsLive t c x p inv' (rw e (mem_self p ps))).0 in
        rw at_p (
          Returns-mono (Picked me u p (put c x ps)) _ (rest (u, p))
            (rest_held u p (put c x ps) (subst (λ l. Inv u (put c x (tail l))) e d.inv) ne
              (subst (λ (v : Env). (v.threads me).steal_from < v.num_threads) (sym (d.env ∙ g))
                fits.bound)
              some_fuel)
            λ v k. record {
              inv = k.inv;
              job = k.job;
              current = k.current;
              heap = k.heap ∙ d.heap ∙ h;
              members = subst (IsPicking me p v.0.env) (d.env ∙ g) k.members;
            })

    -- The pop of an empty queue changes nothing that counts.
    popped_empty :
        (x : Place) (r : System × Ptr) (t : System)
        → Inv t c
        → c x ≡ []
        → PoppedAt t c x r
        → (r.1 ≡ nullptr) × Inv r.0 c
    popped_empty x r t inv' e d = (
      d.job ∙ ap (λ l. first l nullptr) e,
      subst (Inv r.0) (ap (λ l. put c x (tail l)) e ∙ put_self c x [] e) d.inv,
    )

    -- Both own queues were empty.
    stolen :
        (v u : System)
        → Inv v c
        → v.heap ≡ u.heap
        → u.heap ≡ s.heap
        → v.env ≡ s.env
        → Returns
            (Picked me s (stolen_of c (victims me s.env)) (left_of c (victims me s.env)))
            (rest (v, nullptr))
    stolen v u inv' h g e =
        Returns-mono (Picked me v (stolen_of c (victims me v.env)) (left_of c (victims me v.env))) _
          (rest (v, nullptr))
          (rest_steals v c inv' (subst IsFitting (sym e) fits)
            (subst (λ (x : Env). steal_rounds x.num_threads < fuel) (sym e) enough))
          λ r d. record {
            inv = subst (λ x. Inv r.0 (left_of c (victims me x))) e d.inv;
            job = d.job ∙ ap (λ x. stolen_of c (victims me x)) e;
            current = d.current ∙ ap (λ x. stolen_of c (victims me x)) e;
            heap = d.heap ∙ h ∙ g;
            members =
                subst (IsPicking me (stolen_of c (victims me s.env)) r.0.env) e (
                  subst (λ x. IsPicking me (stolen_of c (victims me x)) r.0.env v.env) e d.members);
          }

    -- In a well-formed pool, with fuel for the loop that steals, a worker finds the front of its local
    -- queue; if that is empty the front of its own global queue; and if that is empty the front of the
    -- first of the other global queues that it asks and that holds a job, or nothing if none does. That
    -- job is its current one, it has left its queue, and no other queue and no job has changed.
    pub pick_job-Picked :
        Returns (Picked me s (picked me s.env c) (left_behind me s.env c)) (pick_job fuel me s)
    unfolding pick_job
    pick_job-Picked = rw index (
        Returns-bind (PoppedAt s c (local_queue me)) _ (pop_at (local_queue me) s) _
          (pop_at-PoppedAt s c (local_queue me) inv (lt→ltb _ _ own))
          λ (u, q) d. elim (List-cases (c (local_queue me))) [
            | inr (p, ps, e) ↦
                let at_p : q ≡ p = d.job ∙ ap (λ l. first l nullptr) e in
                let ne : (p == nullptr) ≡ false =
                  (queued-IsLive s c (local_queue me) p inv (rw e (mem_self p ps))).0 in
                rw (picked, left_behind, e, at_p, ne)
                  (popped_held (local_queue me) p ps (u, p) s refl refl inv e
                    (subst (λ x. PoppedAt s c (local_queue me) (u, x)) at_p d))
            | inl e ↦
                let (is_null, inv1) = popped_empty (local_queue me) (u, q) s inv e d in
                rw (picked, left_behind, e, is_null)
                  (Returns-bind (PoppedAt u c (global_queue me)) _ (pop_at (global_queue me) u) _
                    (pop_at-PoppedAt u c (global_queue me) inv1
                      (lt→ltb _ _ (subst (λ (v : Env). me < v.num_queues) (sym d.env) own)))
                    λ (v, k) d2. elim (List-cases (c (global_queue me))) [
                      | inr (p, ps, e2) ↦
                          rw e2
                            (popped_held (global_queue me) p ps (v, k) u d.heap d.env inv1 e2 d2)
                      | inl e2 ↦
                          let (is_null2, inv2) =
                            popped_empty (global_queue me) (v, k) u inv1 e2 d2 in
                          rw (e2, is_null2) (stolen v u inv2 d2.heap d.heap (d2.env ∙ d.env))
                    ])
          ])
