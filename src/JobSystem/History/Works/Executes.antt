-- ===== src/JobSystem/History/Works/Executes.antt =====
-- A worker executes its current job, and goes on with the continuation (src/job/job_system.cpp).
use bop.Common.{
  ℕ, ◌<◌, ◌≡◌, refl, sym, subst, ap, ap₂, ◌∙◌, true, false, List, [], ◌∷◌, ◌++◌, leb, ◌==◌, length,
  if◌then◌else◌, Bool-cases, eq_of_eqb, eqb_refl, inl, inr,
}
use bop.Memory.{Ptr, nullptr, Run, Returns, Returns-mono}
use bop.Job.{Outcome}
use bop.JobSystem.State.{Place, recycling_bin, System, Env}
use bop.JobSystem.Inv.{Contents, NotQueued}
use bop.JobSystem.Complete.{recycling_capacity}
use bop.JobSystem.Complete.Recycle.{IsBounded, bin_for, recycled, recycled-IsBounded}
use bop.JobSystem.Worker.{execute}
use bop.JobSystem.Worker.Execute.{Ran, execute-Ran, after_round}
use bop.JobSystem.Worker.Chain.{runs_at, runs_at-same}
use bop.JobSystem.History.Ledger.{Status, held, is_work, is_at, is_held}
use bop.JobSystem.History.Ledger.Erase.{erase}
use bop.JobSystem.History.Ledger.Turn.{turned, turn-IsLedger}
use bop.JobSystem.History.Ledger.Statuses.{held-is_pending}
use bop.JobSystem.History.Sound.{
  next_of, view, IsSound, IsFit-same, SameSeat, seat-set, same_view, ready-job,
}
use bop.JobSystem.History.Places.{pushed-mem}

-- The members that the queues depend on.
abbrev pub SameThreads : Env → Env → Type 0
SameThreads e e' =
    (e'.num_threads ≡ e.num_threads) × (e'.num_queues ≡ e.num_queues) × (e'.threads ≡ e.threads)

-- A callable that returns, leaves the jobs, the queues and the threads of the pool alone, and records
-- that it has run.
abbrev pub IsCalm : (ℕ → System → Run (System × Outcome)) → Type 0
IsCalm body =
    (f : ℕ) (s : System)
    → Returns
        (λ r.
          (r.0.heap ≡ s.heap)
          × (r.0.queues ≡ s.queues)
          × SameThreads s.env r.0.env
          × (r.0.env.called ≡ s.env.called ++ f ∷ []))
        (body f s)

bin_for-idle : (me : ℕ) (c : Contents) → is_work (bin_for me c) ≡ false
bin_for-idle me c = elim (Bool-cases (leb (length (c (recycling_bin me))) recycling_capacity)) [
  | inl room ↦ rw room
  | inr full ↦ rw full
]

recycled-IsBounded_all :
    (me : ℕ) (c : Contents) (p : Ptr)
    → ((i : ℕ) → IsBounded i c)
    → (i : ℕ) → IsBounded i (recycled me c p)
recycled-IsBounded_all me c p b i = elim (Bool-cases (me == i)) [
  | inl mine ↦
      subst (λ k. IsBounded k (recycled me c p)) (eq_of_eqb me i mine)
        (recycled-IsBounded me c p (b me))
  | inr other ↦ elim (Bool-cases (leb (length (c (recycling_bin me))) recycling_capacity)) [
    | inl room ↦ rw (room, other) (b i)
    | inr full ↦ rw full (b i)
  ]
]

held-at : (t : Status) (i : ℕ) (x : Place) → is_held t i ≡ true → is_at t x ≡ false
held-at (held k) i x e = refl
held-at _ i x e = cc

current_after :
    (me : ℕ) (next : Ptr) (e : Env) (i : ℕ)
    → (after_round me next e i).current_job ≡ (if me == i then next else (e.threads i).current_job)
current_after me next e i = elim (Bool-cases (me == i)) [
  | inl mine ↦ rw mine
  | inr other ↦ rw other
]

module _ (body : ℕ → System → Run (System × Outcome)) (clock : ℕ → System → ℕ)
    (calm : IsCalm body) where
  pub execute-IsSound :
      (fuel me : ℕ) (s : System) (c : Contents) (st : Ptr → Status) (rank : Ptr → ℕ)
      (pending : List Ptr)
      → IsSound s c st rank pending
      → ((s.threads me).current_job == nullptr) ≡ false
      → 0 < fuel
      → Returns
          (λ r.
            let p = (s.threads me).current_job in
            IsSound r.0 (recycled me c p) (turned me p (bin_for me c) st) rank (erase p pending)
            × (r.0.env.called ≡ s.env.called ++ runs_at (s.heap p))
            × ((a : Ptr) → (a == p) ≡ false → runs_at (r.0.heap a) ≡ runs_at (s.heap a)))
          (execute body clock fuel me (s.threads me).current_job s)
  execute-IsSound fuel me s c st rank pending sound ne enough =
      let p = (s.threads me).current_job in
      let in_hand : is_held (st p) me ≡ true = sym (sound.ledger.holding me p ne) ∙ eqb_refl p in
      let (_, j, found, last, root) =
        ready-job p (s.heap p) (sound.ledger.ready p (held-is_pending (st p) me in_hand)) in
      let out : NotQueued c p = λ x. sound.ledger.waiting x p ∙ held-at (st p) me x in_hand in
      Returns-mono (Ran me SameThreads s c p j) _ (execute body clock fuel me p s)
        (execute-Ran body clock me SameThreads calm (λ e. (refl, refl, refl)) fuel s c p j sound.inv
          (sound.bounded me) found ne last root out enough)
        λ (t, next) d.
          let (e, (threads, queues, same), n, q, m) = d.members in
          (
            record {
              inv = d.inv;
              bounded = recycled-IsBounded_all me c p sound.bounded;
              fit = IsFit-same s.env t.env sound.fit (n ∙ threads) (q ∙ queues) λ i.
                  subst (SameSeat (s.threads i)) (sym (m i)) (
                    subst (λ f. SameSeat (f i) (after_round me j.continuation e i)) same
                      (seat-set e.threads me
                        (record (e.threads me) {
                          no_work_counter = 0;
                          current_job = j.continuation;
                        })
                        (refl, refl, refl) i));
              ledger =
                  turn-IsLedger (view s c) (view t (recycled me c p)) st rank pending sound.ledger
                    me p ne (bin_for me c) (bin_for-idle me c) refl
                    (λ y a. pushed-mem c (bin_for me c) p out y a)
                    (λ i.
                      ap (λ th. th.current_job) (m i)
                      ∙ current_after me j.continuation e i
                      ∙ ap₂ (λ k f. if me == i then k else (f i).current_job)
                          (sym (ap next_of found)) same)
                    (λ a miss. same_view s t c (recycled me c p) a (d.others a miss));
            },
            d.called ∙ ap (λ o. s.env.called ++ runs_at o) (sym found),
            λ a miss. runs_at-same (s.heap a) (t.heap a) (d.others a miss),
          )
