-- ===== src/JobSystem/Schedule/Continue.antt =====
-- What Job::then (src/job/job.inl) leaves.
use bop.Common.{
  ℕ, ◌≡◌, refl, sym, ap, ◌∙◌, false, Option, none, some, List, [], ◌∷◌, arith, first, mem, ◌==◌,
  eqb_sym, eq_of_eqb, Bool-cases, inl, inr,
}
use bop.Memory.{
  Ptr, nullptr, load_lem, write_self, write_other, Returns, Returns-bind, Returns-mono,
}
use bop.Job.{Job, Work}
use bop.JobSystem.State.{recycling_bin, System}
use bop.JobSystem.Inv.{Contents, Inv, NotQueued, relinked-Inv}
use bop.JobSystem.Schedule.{construct, then_job}
use bop.JobSystem.Schedule.Create.{IsFresh, bin_rest, IsFor, construct-Created}

pub eqb-first :
    (a d : Ptr) (ps : List Ptr) → mem a ps ≡ false → (a == d) ≡ false → (a == first ps d) ≡ false
eqb-first a d [] out ne = ne
eqb-first a d (p ∷ ps) out ne = ground arith

pub none-ne-some : {A : Type 0} {a : A} → none ≡ some a → ⊥
none-ne-some e = cc

-- What `then` leaves, with the jobs that it does not touch.
pub record Chained (me : ℕ) (fresh : Ptr) (s : System) (c : Contents) (job : Ptr) (j : Job)
    (fn : Work) (thread_index : Option ℕ) (r : System × Ptr) : Type 0 where
  pub inv : Inv r.0 (bin_rest me c)
  pub address : r.1 ≡ first (c (recycling_bin me)) fresh
  pub out : NotQueued (bin_rest me c) r.1
  pub chained : r.0.heap job ≡ some (record j { continuation = r.1 })
  pub next : (n : Job) × (r.0.heap r.1 ≡ some n) × IsFor fn nullptr thread_index n
  pub env : r.0.env ≡ s.env
  pub others : (a : Ptr) → (a == job) ≡ false → (a == r.1) ≡ false → r.0.heap a ≡ s.heap a

module _ (me : ℕ) (fresh : Ptr) (s : System) (c : Contents) (inv : Inv s c)
    (new : IsFresh s fresh) where
  pub live_ne_fresh : (job : Ptr) (j : Job) → s.heap job ≡ some j → (job == fresh) ≡ false
  live_ne_fresh job j found = elim (Bool-cases (job == fresh)) [
    | inl e ↦ absurd (none-ne-some (sym new.1 ∙ ap s.heap (sym (eq_of_eqb job fresh e)) ∙ found))
    | inr ne ↦ ne
  ]

  module _ (job : Ptr) (j : Job) (fn : Work) (thread_index : Option ℕ) (found : s.heap job ≡ some j)
      (ne : (job == nullptr) ≡ false) (out : mem job (c (recycling_bin me)) ≡ false) where
    pub then_job_lem :
        Returns
          (Chained me fresh s c job j fn thread_index)
          (then_job me fresh job fn thread_index s)
    unfolding then_job
    then_job_lem =
        let unequal : (job == fresh) ≡ false = live_ne_fresh job j found in
        Returns-bind _ _ (construct me fresh fn nullptr thread_index s) _
          (construct-Created me fresh s c inv new fn nullptr thread_index)
          λ (t, next) (n, is_for, d).
            let apart : (job == next) ≡ false =
              rw d.address (eqb-first job fresh (c (recycling_bin me)) out unequal) in
            let found' : t.heap job ≡ some j = d.others job apart ∙ found in
            rw (load_lem t.heap job j ne found') (record {
              inv = relinked-Inv t (bin_rest me c) job j _ found' refl d.inv;
              address = d.address;
              out = d.out;
              chained = write_self t.heap job _;
              next = (n, write_other t.heap job _ next (eqb_sym job next apart) ∙ d.job, is_for);
              env = d.env;
              others = λ a ne_job ne_next. write_other t.heap job _ a ne_job ∙ d.others a ne_next;
            })

    -- `then` on a job that is not in the caller's recycling bin, in a well-formed pool: the
    -- continuation is made for the callable and the thread that were given, with no parent, and is in
    -- no queue; the job points to it, and has its other fields as before.
    pub then_job-Chained :
        Returns
          (λ (t, next).
            Inv t (bin_rest me c)
            × NotQueued (bin_rest me c) next
            × (t.heap job ≡ some (record j { continuation = next }))
            × ((n : Job) × (t.heap next ≡ some n) × IsFor fn nullptr thread_index n))
          (then_job me fresh job fn thread_index s)
    then_job-Chained =
        Returns-mono (Chained me fresh s c job j fn thread_index) _
          (then_job me fresh job fn thread_index s) then_job_lem
          λ r d. (d.inv, d.out, d.chained, d.next)
