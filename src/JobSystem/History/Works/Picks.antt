-- ===== src/JobSystem/History/Works/Picks.antt =====
-- A worker that has no job looks for one (src/job/job_system.cpp).
use bop.Common.{
  ℕ, ◌<◌, ◌≡◌, refl, sym, subst, ap, ◌∙◌, true, List, [], ◌∷◌, arith, ◌==◌, mem, mem_self,
  if◌then◌else◌, Bool-cases, List-cases, eq_of_eqb, inl, inr, ◌⊎◌,
}
use bop.Memory.{Ptr, nullptr, Returns, Returns-mono}
use bop.Queue.Shape.{unlinked}
use bop.Job.{job_link}
use bop.JobSystem.State.{Place, global_queue, local_queue, System, Env}
use bop.JobSystem.Inv.{Contents, Inv, put, queued-IsLive}
use bop.JobSystem.Worker.{pick_job}
use bop.JobSystem.Worker.Steal.{stolen_of, left_of, steal_rounds}
use bop.JobSystem.Worker.Pick.{picked, left_behind, victims, after_pick, Picked, pick_job-Picked}
use bop.JobSystem.Complete.Recycle.{IsBounded}
use bop.JobSystem.History.Ledger.{
  Status, waits, held, is_work, is_pending, is_at, set_status, same-IsLedger,
}
use bop.JobSystem.History.Ledger.Take.{take-IsLedger}
use bop.JobSystem.History.Sound.{view, IsFit, IsSound, same_view, IsFit-IsFitting}
use bop.JobSystem.History.Places.{popped-mem}

-- Nothing is found and nothing changes, or the front of a queue that jobs wait in.
abbrev Found : Contents → Ptr → Contents → Type 0
Found c p d =
    ((p ≡ nullptr) × (d ≡ c))
    ⊎ ((x : Place) × (ps : List Ptr) × (is_work x ≡ true) × (c x ≡ p ∷ ps) × (d ≡ put c x ps))

stolen-Found : (c : Contents) (is : List ℕ) → Found c (stolen_of c is) (left_of c is)
stolen-Found c [] = inl (refl, refl)
stolen-Found c (i ∷ is) = elim (List-cases (c (global_queue i))) [
  | inl e ↦ rw (stolen_of, left_of, e) (stolen-Found c is)
  | inr (p, ps, e) ↦ rw (stolen_of, left_of, e) (inr (global_queue i, ps, refl, e, refl))
]

picked-Found : (me : ℕ) (e : Env) (c : Contents) → Found c (picked me e c) (left_behind me e c)
picked-Found me e c = elim (List-cases (c (local_queue me))) [
  | inr (p, ps, l) ↦ rw (picked, left_behind, l) (inr (local_queue me, ps, refl, l, refl))
  | inl l ↦ elim (List-cases (c (global_queue me))) [
    | inr (p, ps, g) ↦ rw (picked, left_behind, l, g) (inr (global_queue me, ps, refl, g, refl))
    | inl g ↦ rw (picked, left_behind, l, g) (stolen-Found c (victims me e))
  ]
]

after_pick-IsFit :
    (me : ℕ) (p : Ptr) (from : ℕ) (e : Env)
    → from < e.num_threads
    → IsFit e
    → IsFit (after_pick me p from e)
after_pick-IsFit me p from e bound fit = record {
  some_thread = fit.some_thread;
  threads = fit.threads;
  queues = fit.queues;
  index = λ i. elim (Bool-cases (me == i)) [
    | inl mine ↦ rw mine (fit.index me)
    | inr other ↦ rw other (fit.index i)
  ];
  tidx = λ i. elim (Bool-cases (me == i)) [
    | inl mine ↦ rw mine (fit.tidx me)
    | inr other ↦ rw other (fit.tidx i)
  ];
  steal_from = λ i. elim (Bool-cases (me == i)) [
    | inl mine ↦ rw mine bound
    | inr other ↦ rw other (fit.steal_from i)
  ];
}

after_pick-current :
    (me : ℕ) (p : Ptr) (from : ℕ) (e : Env) (i : ℕ)
    → ((after_pick me p from e).threads i).current_job
      ≡ (if me == i then p else (e.threads i).current_job)
after_pick-current me p from e i = elim (Bool-cases (me == i)) [
  | inl mine ↦ rw mine
  | inr other ↦ rw other
]

work-IsBounded :
    (x : Place) (ps : List Ptr) (i : ℕ) (c : Contents)
    → is_work x ≡ true
    → IsBounded i c
    → IsBounded i (put c x ps)
work-IsBounded (global_queue k) ps i c work b = b
work-IsBounded (local_queue k) ps i c work b = b
work-IsBounded _ ps i c work b = cc

-- What waits where jobs wait is pending.
at-is_pending : (t : Status) (x : Place) → is_work x ≡ true → is_at t x ≡ true → is_pending t ≡ true
at-is_pending (waits y) x work m = ap is_work (bop.JobSystem.Inv.same_place_eq y x m) ∙ work
at-is_pending _ x work m = cc

-- A thread that had no job and found none.
still_none :
    (e : Env) (me : ℕ) (p : Ptr)
    → p ≡ nullptr
    → (e.threads me).current_job ≡ nullptr
    → (i : ℕ) → (if me == i then p else (e.threads i).current_job) ≡ (e.threads i).current_job
still_none e me p no_job free i = elim (Bool-cases (me == i)) [
  | inl mine ↦
      rw mine (no_job ∙ sym free ∙ ap (λ k. (e.threads k).current_job) (eq_of_eqb me i mine))
  | inr other ↦ rw other
]

-- What the search of a worker leaves.
pub pick-IsSound :
    (fuel me : ℕ) (s : System) (c : Contents) (st : Ptr → Status) (rank : Ptr → ℕ)
    (pending : List Ptr)
    → IsSound s c st rank pending
    → (s.threads me).thread_index ≡ me
    → (s.threads me).current_job ≡ nullptr
    → steal_rounds s.num_threads < fuel
    → Returns
        (λ r.
          (d : Contents) × (st' : Ptr → Status) × IsSound r.0 d st' rank pending
          × (r.0.env.called ≡ s.env.called)
          × (r.0.heap ≡ s.heap))
        (pick_job fuel me s)
pick-IsSound fuel me s c st rank pending sound index free enough =
    Returns-mono (Picked me s (picked me s.env c) (left_behind me s.env c)) _ (pick_job fuel me s)
      (pick_job-Picked fuel me s c sound.inv index (IsFit-IsFitting fuel me s.env sound.fit)
        (subst (λ i. i < s.num_queues) index (sound.fit.index me)) enough (omega arith))
      λ r d.
        let (from, bound, e) = d.members in
        elim (picked-Found me s.env c) [
          | inl (no_job, same) ↦ (
            c,
            st,
            record {
              inv = subst (Inv r.0) same d.inv;
              bounded = sound.bounded;
              fit = subst IsFit (sym e) (after_pick-IsFit me _ from s.env bound sound.fit);
              ledger =
                  same-IsLedger (view s c) (view r.0 c) st rank pending sound.ledger (λ y a. refl)
                    (λ i.
                      ap (λ (v : Env). (v.threads i).current_job) e
                      ∙ after_pick-current me (picked me s.env c) from s.env i
                      ∙ still_none s.env me (picked me s.env c) no_job free i)
                    (λ a. same_view s r.0 c c a (ap (λ h. unlinked job_link (h a)) d.heap));
            },
            ap (λ (v : Env). v.called) e,
            d.heap,
          )
          | inr (x, ps, work, front, same) ↦
              let p = picked me s.env c in
              let here : mem p (c x) ≡ true = rw front (mem_self p ps) in
              (
                put c x ps,
                set_status p (held me) st,
                record {
                  inv = subst (Inv r.0) same d.inv;
                  bounded = λ i. work-IsBounded x ps i c work (sound.bounded i);
                  fit = subst IsFit (sym e) (after_pick-IsFit me _ from s.env bound sound.fit);
                  ledger =
                      take-IsLedger (view s c) (view r.0 (put c x ps)) st rank pending sound.ledger
                        me p (queued-IsLive s c x p sound.inv here).0 x here
                        (at-is_pending (st p) x work (sym (sound.ledger.waiting x p) ∙ here)) free
                        (λ y a. popped-mem s c x p ps sound.inv front y a)
                        (λ i.
                          ap (λ (v : Env). (v.threads i).current_job) e
                          ∙ after_pick-current me p from s.env i)
                        (λ a.
                          same_view s r.0 c (put c x ps) a
                            (ap (λ h. unlinked job_link (h a)) d.heap));
                },
                ap (λ (v : Env). v.called) e,
                d.heap,
              )
        ]
