-- ===== src/JobSystem/History/Works/Collects.antt =====
-- A worker that counts its idle rounds, and forgets what is in its garbage bin
-- (src/job/job_system.cpp).
use bop.Common.{
  ℕ, ◌/◌, ◌≡◌, refl, sym, subst, ap, ◌∙◌, false, List, [], ltb, inc32, ◌==◌, mem, if◌then◌else◌,
  Bool-cases, eq_of_eqb, inl, inr,
}
use bop.Memory.{Ptr, Returns, Returns-mono, Returns-both}
use bop.Queue.Shape.{unlinked}
use bop.Job.{job_link}
use bop.JobSystem.State.{Place, garbage_bin, same_place, System, Thread}
use bop.JobSystem.Inv.{Contents, put}
use bop.JobSystem.Complete.{clear_at}
use bop.JobSystem.Worker.{collect}
use bop.JobSystem.Worker.Round.{IsCollected, collect-IsCollected}
use bop.JobSystem.History.Ledger.{Status, same-IsLedger}
use bop.JobSystem.History.Ledger.Forget.{forgotten, forget-IsLedger}
use bop.JobSystem.History.Sound.{view, IsFit, IsSound, IsFit-same, SameSeat, seat-set, same_view}

-- The members after, but for the counter of the thread.
record IsCounted (me : ℕ) (s t : System) : Type 0 where
  heap : t.heap ≡ s.heap
  num_threads : t.num_threads ≡ s.num_threads
  num_queues : t.num_queues ≡ s.num_queues
  threads :
      (n : ℕ) × ((i : ℕ)
        → t.threads i
          ≡ (if me == i then record (s.threads me) { no_work_counter = n } else s.threads i))

collect-IsCounted : (me : ℕ) (s : System) → Returns (IsCounted me s) (collect me s)
unfolding collect clear_at
collect-IsCounted me s =
    let n = inc32 (s.threads me).no_work_counter in
    elim (Bool-cases (ltb 256 n)) [
      | inl late ↦ rw late (record {
        heap = refl;
        num_threads = refl;
        num_queues = refl;
        threads = (n / 2, λ i. refl);
      })
      | inr early ↦
          rw early (record {
            heap = refl;
            num_threads = refl;
            num_queues = refl;
            threads = (n, λ i. refl);
          })
    ]

current_set :
    (threads : ℕ → Thread) (me n i : ℕ)
    → (if me == i then record (threads me) { no_work_counter = n } else threads i).current_job
      ≡ (threads i).current_job
current_set threads me n i = elim (Bool-cases (me == i)) [
  | inl mine ↦ rw mine (ap (λ k. (threads k).current_job) (eq_of_eqb me i mine))
  | inr other ↦ rw other
]

pub collect-IsSound :
    (me : ℕ) (s : System) (c : Contents) (st : Ptr → Status) (rank : Ptr → ℕ) (pending : List Ptr)
    → IsSound s c st rank pending
    → Returns
        (λ t.
          (d : Contents) × (st' : Ptr → Status) × IsSound t d st' rank pending
          × (t.env.called ≡ s.env.called)
          × (t.heap ≡ s.heap))
        (collect me s)
collect-IsSound me s c st rank pending sound =
    Returns-mono (λ t. (IsCollected me c t × (t.env.called ≡ s.env.called)) × IsCounted me s t) _
      (collect me s)
      (Returns-both (λ t. IsCollected me c t × (t.env.called ≡ s.env.called)) (IsCounted me s)
        (collect me s) (collect-IsCollected me s c sound.inv) (collect-IsCounted me s))
      λ t ((gone, called), d). elim gone [
        | inl inv ↦ (
          c,
          st,
          record {
            inv = inv;
            bounded = sound.bounded;
            fit = fit t d;
            ledger =
                same-IsLedger (view s c) (view t c) st rank pending sound.ledger (λ y a. refl)
                  (current t d)
                  (λ a. same_view s t c c a (ap (λ h. unlinked job_link (h a)) d.heap));
          },
          called,
          d.heap,
        )
        | inr inv ↦
            let x = garbage_bin me in
            (
              put c x [],
              λ a. forgotten x (st a),
              record {
                inv = inv;
                bounded = sound.bounded;
                fit = fit t d;
                ledger =
                    forget-IsLedger (view s c) (view t (put c x [])) st rank pending sound.ledger x
                      refl (λ y a. emptied x y a) (current t d)
                      (λ a.
                        same_view s t c (put c x []) a (ap (λ h. unlinked job_link (h a)) d.heap));
              },
              called,
              d.heap,
            )
      ]
  where
    emptied :
        (x y : Place) (a : Ptr)
        → mem a (put c x [] y) ≡ (if same_place x y then false else mem a (c y))
    emptied x y a = elim (Bool-cases (same_place x y)) [ inl here ↦ rw here | inr there ↦ rw there ]

    current :
        (t : System)
        → IsCounted me s t
        → (i : ℕ) → (t.threads i).current_job ≡ (s.threads i).current_job
    current t d i =
        let (n, e) = d.threads in ap (λ th. th.current_job) (e i) ∙ current_set s.env.threads me n i

    fit : (t : System) → IsCounted me s t → IsFit t.env
    fit t d =
        let (n, e) = d.threads in
        IsFit-same s.env t.env sound.fit d.num_threads d.num_queues λ i.
          subst (SameSeat (s.threads i)) (sym (e i)) (
            seat-set s.env.threads me (record (s.threads me) { no_work_counter = n })
              (refl, refl, refl) i)
