-- ===== src/JobSystem/History/Sound.antt =====
-- What holds of the pool at each moment of a history (src/job/job_system.h).
use bop.Common.{
  ℕ, ◌^◌, ◌≤◌, ◌<◌, ◌≡◌, refl, sym, subst, ap, if◌then◌else◌, Bool-cases, eq_of_eqb, inl, inr, ◌∙◌,
  Bool, true, false, not, ◌&&◌, Option, none, some, List, leb, ◌==◌, mem, arith,
}
use bop.Memory.{Ptr, nullptr}
use bop.Queue.Shape.{unlinked}
use bop.Job.{Job, job_link}
use bop.JobSystem.State.{System, Env, Thread}
use bop.JobSystem.Inv.{Contents, Inv}
use bop.JobSystem.Complete.Recycle.{IsBounded}
use bop.JobSystem.Schedule.Enqueue.{Fits}
use bop.JobSystem.Worker.Pick.{IsFitting}
use bop.JobSystem.History.Ledger.{Status, View, IsLedger}

-- The job is there, has no parent, and is on its last part.
abbrev pub is_ready : Option Job → Bool
is_ready none = false
is_ready (some j) = leb j.num_children 1 && j.parent == nullptr

abbrev pub next_of : Option Job → Ptr
next_of none = nullptr
next_of (some j) = j.continuation

abbrev pub view : System → Contents → View
view s c = record {
  queued = λ x p. mem p (c x);
  current = λ i. (s.threads i).current_job;
  is_ready = λ p. not (p == nullptr) && is_ready (s.heap p);
  next = λ p. next_of (s.heap p);
}

-- Each thread fits the queue arrays.
pub record IsFit (e : Env) : Type 0 where
  pub some_thread : 0 < e.num_threads
  pub threads : e.num_threads ≤ e.num_queues
  pub queues : e.num_queues < 2 ^ 32
  pub index : (i : ℕ) → (e.threads i).thread_index < e.num_queues
  pub tidx : (i : ℕ) → (e.threads i).tidx < e.num_threads
  pub steal_from : (i : ℕ) → (e.threads i).steal_from < e.num_threads

-- A change of thread that the queues do not depend on.
abbrev pub SameSeat : Thread → Thread → Type 0
SameSeat a b = (b.thread_index ≡ a.thread_index) × (b.tidx ≡ a.tidx) × (b.steal_from ≡ a.steal_from)

pub seat-set :
    (threads : ℕ → Thread) (me : ℕ) (th : Thread)
    → SameSeat (threads me) th
    → (i : ℕ) → SameSeat (threads i) (if me == i then th else threads i)
seat-set threads me th same i = elim (Bool-cases (me == i)) [
  | inl mine ↦ rw mine (subst (λ k. SameSeat (threads k) th) (eq_of_eqb me i mine) same)
  | inr other ↦ rw other (refl, refl, refl)
]

pub IsFit-same :
    (e e' : Env)
    → IsFit e
    → e'.num_threads ≡ e.num_threads
    → e'.num_queues ≡ e.num_queues
    → ((i : ℕ) → SameSeat (e.threads i) (e'.threads i))
    → IsFit e'
IsFit-same e e' fit n q same = record {
  some_thread = omega (arith, fit.some_thread, n);
  threads = omega (arith, fit.threads, n, q);
  queues = omega (arith, fit.queues, q);
  index = λ i. let (a, b, c) = same i in omega (arith, fit.index i, a, q);
  tidx = λ i. let (a, b, c) = same i in omega (arith, fit.tidx i, b, n);
  steal_from = λ i. let (a, b, c) = same i in omega (arith, fit.steal_from i, c, n);
}

pub record IsSound (s : System) (c : Contents) (st : Ptr → Status) (rank : Ptr → ℕ)
    (pending : List Ptr) : Type 0 where
  pub inv : Inv s c
  pub bounded : (i : ℕ) → IsBounded i c
  pub fit : IsFit s.env
  pub ledger : IsLedger (view s c) st rank pending

is_ready-unlinked : (o : Option Job) → is_ready (unlinked job_link o) ≡ is_ready o
is_ready-unlinked none = refl
is_ready-unlinked (some j) = refl

next_of-unlinked : (o : Option Job) → next_of (unlinked job_link o) ≡ next_of o
next_of-unlinked none = refl
next_of-unlinked (some j) = refl

-- A view does not see the links.
pub same_job :
    (o u : Option Job)
    → unlinked job_link u ≡ unlinked job_link o
    → (is_ready u ≡ is_ready o) × (next_of u ≡ next_of o)
same_job o u e = (
  sym (is_ready-unlinked u) ∙ ap is_ready e ∙ is_ready-unlinked o,
  sym (next_of-unlinked u) ∙ ap next_of e ∙ next_of-unlinked o,
)

pub same_view :
    (s t : System) (c d : Contents) (a : Ptr)
    → unlinked job_link (t.heap a) ≡ unlinked job_link (s.heap a)
    → ((view t d).is_ready a ≡ (view s c).is_ready a) × ((view t d).next a ≡ (view s c).next a)
same_view s t c d a e =
    let (same_ready, same_next) = same_job (s.heap a) (t.heap a) e in
    (ap (λ b. not (a == nullptr) && b) same_ready, same_next)

-- What it means that a job can be executed.
pub ready-job :
    (p : Ptr) (o : Option Job)
    → (not (p == nullptr) && is_ready o) ≡ true
    → ((p == nullptr) ≡ false)
      × (j : Job) × (o ≡ some j)
      × (leb j.num_children 1 ≡ true)
      × (j.parent ≡ nullptr)
ready-job p none e = ground arith
ready-job p (some j) e = (ground arith, j, refl, ground arith, ground arith)

pub IsFit-Fits : (me : ℕ) (e : Env) → IsFit e → Fits me e
IsFit-Fits me e fit = record {
  some_thread = fit.some_thread;
  threads = fit.threads;
  queues = fit.queues;
  index = fit.index me;
  tidx = fit.tidx me;
}

pub IsFit-IsFitting : (fuel me : ℕ) (e : Env) → IsFit e → IsFitting fuel me e
IsFit-IsFitting fuel me e fit = record {
  some_thread = fit.some_thread;
  queues = fit.threads;
  small = omega (arith, fit.threads, fit.queues);
  bound = fit.steal_from me;
}
