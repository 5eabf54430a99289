-- ===== src/JobSystem/History/Adds.antt =====
-- schedule and then in a history of the pool (src/job/job_system.inl, src/job/job.inl).
use bop.Common.{
  ℕ, ◌≡◌, refl, sym, subst, ap, ◌∙◌, true, false, not, ◌&&◌, Option, some, List, [], ◌∷◌, ◌++◌,
  ◌==◌, mem, mem_self, first, Bool-cases, List-cases, eqb_refl, eq_of_eqb, inl, inr,
}
use mathlib.Core.Bool.{false≢true}
use bop.Memory.{Ptr, nullptr, Returns, Returns-mono}
use bop.Job.{Work}
use bop.JobSystem.State.{recycling_bin, System, Env}
use bop.JobSystem.Inv.{Contents, put, NotQueued, queued-IsLive}
use bop.JobSystem.Schedule.{schedule, then_job}
use bop.JobSystem.Schedule.Create.{IsFresh, bin_rest}
use bop.JobSystem.Schedule.Enqueue.{destination, Scheduled, schedule-Scheduled}
use bop.JobSystem.Schedule.Continue.{Chained, then_job_lem}
use bop.JobSystem.History.Ledger.{Status, waits, follows, is_pending, set_status}
use bop.JobSystem.History.Ledger.Enlist.{enlist-IsLedger}
use bop.JobSystem.History.Ledger.Follow.{rank_after, follow-IsLedger}
use bop.JobSystem.History.Sound.{
  is_ready, next_of, view, IsFit, IsSound, same_job, same_view, ready-job, IsFit-Fits,
}
use bop.JobSystem.History.Places.{pushed-mem, taken-mem}
use bop.JobSystem.Worker.Execute.{runs}
use bop.JobSystem.Worker.Chain.{runs_at, runs_at-same}
use bop.JobSystem.History.Account.{Gains}
use bop.JobSystem.History.Chosen.{
  balanced-called, destination-is_work, destination-bin, balanced-IsFit, balanced-current, at-bin,
  if_else, bin_rest-IsBounded,
}

module _ (me : ℕ) (fresh : Ptr) (s : System) (c : Contents) (st : Ptr → Status) (rank : Ptr → ℕ)
    (pending : List Ptr) (sound : IsSound s c st rank pending) (new : IsFresh s fresh) where
  open sound use {inv, ledger}

  -- The address that create_job returns.
  record IsTaken (p : Ptr) : Type 0 where
    not_null : (p == nullptr) ≡ false
    free : is_pending (st p) ≡ false
    out : NotQueued (bin_rest me c) p

  address-IsTaken : (p : Ptr) → p ≡ first (c (recycling_bin me)) fresh → IsTaken p
  address-IsTaken p e = elim (List-cases (c (recycling_bin me))) [
    | inl none_there ↦
        let at : p ≡ fresh = e ∙ ap (λ l. first l fresh) none_there in
        record {
          not_null = ap (λ a. a == nullptr) at ∙ new.0;
          free = ap (λ a. is_pending (st a)) at ∙ fresh_free;
          out = out;
        }
    | inr (q, qs, some_there) ↦
        let at : p ≡ q = e ∙ ap (λ l. first l fresh) some_there in
        let m : mem q (c (recycling_bin me)) ≡ true = rw some_there (mem_self q qs) in
        record {
          not_null = ap (λ a. a == nullptr) at ∙ (queued-IsLive s c (recycling_bin me) q inv m).0;
          free =
              ap (λ a. is_pending (st a)) at
              ∙ at-bin (st q) (recycling_bin me) refl
                  (sym (ledger.waiting (recycling_bin me) q) ∙ m);
          out = out;
        }
  ]
    where
      out : NotQueued (bin_rest me c) p
      out x = taken-mem me fresh s c p inv new e x p ∙ rw (eqb_refl p)

      fresh_free : is_pending (st fresh) ≡ false
      fresh_free = elim (Bool-cases (is_pending (st fresh))) [
        | inl m ↦ absurd (false≢true (sym (rw (new.0, new.1)) ∙ ledger.ready fresh m))
        | inr free ↦ free
      ]

  -- What schedule leaves.
  pub schedule-IsSound :
      (fn : Work) (thread_index : Option ℕ)
      → Returns
          (λ r.
            let x = destination me thread_index s.env in
            IsSound r.0
              (put (bin_rest me c) x (bin_rest me c x ++ r.1 ∷ []))
              (set_status r.1 (waits x) st)
              rank
              (pending ++ r.1 ∷ [])
            × Gains s r.0 r.1 (runs fn) pending)
          (schedule me fresh fn nullptr thread_index s)
  schedule-IsSound fn thread_index =
      Returns-mono (Scheduled me fresh fn nullptr thread_index s c) _
        (schedule me fresh fn nullptr thread_index s)
        (schedule-Scheduled me fresh s c inv (IsFit-Fits me s.env sound.fit) new fn nullptr
          thread_index)
        λ (t, p) d.
          let x = destination me thread_index s.env in
          let k = address-IsTaken p d.address in
          let c' : Contents = put (bin_rest me c) x (bin_rest me c x ++ p ∷ []) in
          let (j, for_it, e) = d.job in
          let (ready, next) = same_job (some j) (t.heap p) e in
          (
            record {
              inv = d.inv;
              bounded = λ i.
                  rw (destination-bin me thread_index s.env i)
                    (bin_rest-IsBounded me i c (sound.bounded i));
              fit = subst IsFit (sym d.env) (balanced-IsFit me thread_index s.env sound.fit);
              ledger =
                  enlist-IsLedger (view s c) (view t c') st rank pending ledger x p
                    (destination-is_work me thread_index s.env) k.not_null k.free
                    (λ y a.
                      pushed-mem (bin_rest me c) x p k.out y a
                      ∙ if_else (a == p) _ _ _ (taken-mem me fresh s c p inv new d.address y a))
                    (λ i.
                      ap (λ (e : Env). (e.threads i).current_job) d.env
                      ∙ balanced-current me thread_index s.env i)
                    (rw k.not_null (ready ∙ rw (for_it.0, for_it.1))) (next ∙ for_it.2)
                    (λ a miss. same_view s t c c' a (d.others a miss));
            },
            record {
              called = ap (λ (v : Env). v.called) d.env ∙ balanced-called me thread_index s.env;
              others = λ a miss. runs_at-same (s.heap a) (t.heap a) (d.others a miss);
              here = runs_at-same (some j) (t.heap p) e ∙ ap runs for_it.5;
              new = ledger.listed p ∙ k.free;
            },
          )

  pub then-IsSound :
      (job : Ptr) (fn : Work) (thread_index : Option ℕ)
      → is_pending (st job) ≡ true
      → next_of (s.heap job) ≡ nullptr
      → Returns
          (λ r.
            IsSound r.0
              (bin_rest me c)
              (set_status r.1 (follows job) st)
              (rank_after job r.1 rank)
              (pending ++ r.1 ∷ [])
            × Gains s r.0 r.1 (runs fn) pending)
          (then_job me fresh job fn thread_index s)
  then-IsSound job fn thread_index before last =
      let (ne, j, found, j_last, j_root) = ready-job job (s.heap job) (ledger.ready job before) in
      Returns-mono (Chained me fresh s c job j fn thread_index) _
        (then_job me fresh job fn thread_index s)
        (then_job_lem me fresh s c inv new job j fn thread_index found ne (not_in_bin job before))
        λ (t, p) d.
          let k = address-IsTaken p d.address in
          let c' = bin_rest me c in
          let apart : (job == p) ≡ false = apart_of job p before k.free in
          let (n, found', for_it) = d.next in
          (
            record {
              inv = d.inv;
              bounded = λ i. bin_rest-IsBounded me i c (sound.bounded i);
              fit = subst IsFit (sym d.env) sound.fit;
              ledger =
                  follow-IsLedger (view s c) (view t c') st rank pending ledger job p k.not_null
                    k.free before last apart (λ y a. taken-mem me fresh s c p inv new d.address y a)
                    (λ i. ap (λ (e : Env). (e.threads i).current_job) d.env)
                    (rw (k.not_null, found', for_it.0, for_it.1), rw found' for_it.2)
                    (rw (ne, d.chained, j_last, j_root), rw d.chained)
                    (λ a other miss. (
                      ap (λ o. not (a == nullptr) && is_ready o) (d.others a other miss),
                      ap next_of (d.others a other miss),
                    ));
            },
            record {
              called = ap (λ (v : Env). v.called) d.env;
              others = λ a miss. elim (Bool-cases (a == job)) [
                | inl hit ↦
                    subst (λ k. runs_at (t.heap k) ≡ runs_at (s.heap k)) (sym (eq_of_eqb a job hit))
                      (ap runs_at d.chained ∙ sym (ap runs_at found))
                | inr other ↦ ap runs_at (d.others a other miss)
              ];
              here = ap runs_at found' ∙ ap runs for_it.5;
              new = ledger.listed p ∙ k.free;
            },
          )
    where
      not_in_bin : (a : Ptr) → is_pending (st a) ≡ true → mem a (c (recycling_bin me)) ≡ false
      not_in_bin a m = elim (Bool-cases (mem a (c (recycling_bin me)))) [
        | inl there ↦ absurd (
            false≢true (
              sym (
                at-bin (st a) (recycling_bin me) refl
                  (sym (ledger.waiting (recycling_bin me) a) ∙ there))
              ∙ m))
        | inr elsewhere ↦ elsewhere
      ]

      apart_of :
          (a b : Ptr) → is_pending (st a) ≡ true → is_pending (st b) ≡ false → (a == b) ≡ false
      apart_of a b m out = elim (Bool-cases (a == b)) [
        | inl same ↦
            absurd
              (false≢true (sym out ∙ ap (λ k. is_pending (st k)) (sym (eq_of_eqb a b same)) ∙ m))
        | inr apart ↦ apart
      ]
