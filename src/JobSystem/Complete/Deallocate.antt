-- ===== src/JobSystem/Complete/Deallocate.antt =====
-- deallocate_job_queue gives back exactly the jobs of the queue.
use bop.Common.{
  ℕ, zero, suc, ◌<◌, ◌≡◌, refl, sym, subst, ap, ◌∙◌, true, false, none, List, [], ◌∷◌, arith, tail,
  first, mem, length, ◌==◌, if◌then◌else◌, Bool-cases, eq_of_eqb, if_same, mem_self, fun_ext, inl,
  inr,
}
use bop.Memory.{
  Ptr, nullptr, Heap, write, write_self, write_other, Returns, Returns-bind, Returns-mono,
}
use bop.Queue
use bop.Queue.{empty}
use bop.Queue.Shape.{empty-IsQueue}
use bop.Job.{Job, job_link}
use bop.JobSystem.State.{Place, System, same_place, in_range, pop_at}
use bop.JobSystem.Inv.{
  Contents, Inv, put, same_place_refl, PoppedAt, pop_at-PoppedAt, first-NotQueued, replaced-Inv,
  store-Inv, queued-IsLive,
}
use bop.JobSystem.Complete.{deallocate, deallocate_loop, clear_at, deallocate_job_queue}

-- `g` is `h` less the jobs of `ps`.
abbrev pub Without : List Ptr → Heap Job → Heap Job → Type 0
Without ps h g = (a : Ptr) → g a ≡ (if mem a ps then none else h a)

pub record Deallocated (s : System) (c : Contents) (x : Place) (t : System) : Type 0 where
  pub inv : Inv t (put c x [])
  pub heap : Without (c x) s.heap t.heap
  pub env : t.env ≡ s.env

pub put-put : (c : Contents) (x : Place) (ps qs : List Ptr) → put (put c x ps) x qs ≡ put c x qs
put-put c x ps qs =
    fun_ext λ y. elim (Bool-cases (same_place x y)) [ inl hit ↦ rw hit | inr miss ↦ rw miss ]

Without-cons :
    (h : Heap Job) (q : Ptr) (ps qs : List Ptr) (a : Ptr)
    → qs ≡ ps
    → (if mem a qs then none else write h q none a) ≡ (if mem a (q ∷ ps) then none else h a)
Without-cons h q ps qs a e = elim (Bool-cases (a == q)) [
  | inl hit ↦ rw (hit, eq_of_eqb a q hit, write_self h q none, e) (if_same (mem q ps) none)
  | inr miss ↦ rw (miss, write_other h q none a miss, e)
]

module _ (x : Place) where
  deallocate_loop-Deallocated :
      (fuel : ℕ) (s : System) (c : Contents) (ps : List Ptr)
      → Inv s c
      → in_range s x ≡ true
      → c x ≡ ps
      → length ps < fuel
      → Returns (Deallocated s c x) (deallocate_loop fuel x s)
  unfolding deallocate_loop
  deallocate_loop-Deallocated zero s c ps inv room e enough = absurd (omega arith)
  deallocate_loop-Deallocated (suc fuel) s c [] inv room e enough =
      Returns-bind (PoppedAt s c x) _ (pop_at x s) _ (pop_at-PoppedAt s c x inv room) λ (t, p) d.
        let is_null : p ≡ nullptr = d.job ∙ ap (λ l. first l nullptr) e in
        rw is_null (record {
          inv = subst (λ l. Inv t (put c x (tail l))) e d.inv;
          heap = λ a.
              ap (λ h. h a) d.heap
              ∙ ap (λ (l : List Ptr). if mem a l then none else s.heap a) (sym e);
          env = d.env;
        })
  deallocate_loop-Deallocated (suc fuel) s c (q ∷ ps) inv room e enough =
      Returns-bind (PoppedAt s c x) _ (pop_at x s) _ (pop_at-PoppedAt s c x inv room) λ (t, p) d.
        let here : put c x ps x ≡ ps = rw (same_place_refl x) in
        let at_q : p ≡ q = d.job ∙ ap (λ l. first l nullptr) e in
        let ne : (q == nullptr) ≡ false = (queued-IsLive s c x q inv (rw e (mem_self q ps))).0 in
        let t1 = deallocate q t in
        let inv1 : Inv t1 (put c x ps) =
          store-Inv t (put c x ps) q none (first-NotQueued s c x q ps inv e)
            (subst (λ l. Inv t (put c x (tail l))) e d.inv) in
        let room1 : in_range t1 x ≡ true =
          ap (λ v. in_range (record s { env = v }) x) d.env ∙ room in
        rw (at_q, ne)
          (Returns-mono (Deallocated t1 (put c x ps) x) _ (deallocate_loop fuel x t1)
            (deallocate_loop-Deallocated fuel t1 (put c x ps) ps inv1 room1 here (omega arith))
            λ u r. record {
              inv = subst (Inv u) (put-put c x ps []) r.inv;
              heap = λ a.
                  r.heap a
                  ∙ Without-cons t.heap q ps _ a here
                  ∙ ap (λ (l : List Ptr). if mem a l then none else t.heap a) (sym e)
                  ∙ ap (λ (h : Heap Job). if mem a (c x) then none else h a) d.heap;
              env = r.env ∙ d.env;
            })

  -- In a well-formed pool, with a unit of fuel for each job and one more, deallocate_job_queue frees
  -- the jobs of the queue and no other job, and leaves the queue empty and the pool well-formed.
  pub deallocate_job_queue-Deallocated :
      (fuel : ℕ) (s : System) (c : Contents)
      → Inv s c
      → in_range s x ≡ true
      → length (c x) < fuel
      → Returns (Deallocated s c x) (deallocate_job_queue fuel x s)
  unfolding deallocate_job_queue clear_at Queue.clear
  deallocate_job_queue-Deallocated fuel s c inv room enough =
      Returns-bind (Deallocated s c x) _ (deallocate_loop fuel x s) _
        (deallocate_loop-Deallocated fuel s c (c x) inv room refl enough)
        λ t d. record {
          inv = subst (Inv _) (put-put c x [] []) (
              replaced-Inv t (put c x []) x _ [] d.inv
                (record { free = (d.inv.idle x).free; list = empty-IsQueue job_link t.heap })
                (λ p m. cc));
          heap = d.heap;
          env = d.env;
        }
