-- ===== src/JobSystem/History/Ledger.antt =====
-- A ledger of the jobs that are pending in the pool (src/job/job_system.cpp): where each of them is.
pub mod Erase
pub mod Enlist
pub mod Follow
pub mod Statuses
pub mod Take
pub mod Turn
pub mod Forget
use bop.Common.{
  ℕ, ◌<◌, ◌≡◌, refl, ap, ◌∙◌, Bool, true, false, List, [], ◌==◌, ◌&&◌, mem, Distinct, if◌then◌else◌,
}
use bop.Memory.{Ptr, nullptr}
use bop.JobSystem.State.{Place, global_queue, local_queue, same_place}

-- Where an address is: in a queue, in the hands of a thread, or the continuation of another job.
pub data Status : Type 0 where
  nowhere : Status
  waits : Place → Status
  held : ℕ → Status
  follows : Ptr → Status

-- The queues that jobs wait in, and not the bins.
abbrev pub is_work : Place → Bool
is_work (global_queue i) = true
is_work (local_queue i) = true
is_work _ = false

abbrev pub is_pending : Status → Bool
is_pending nowhere = false
is_pending (waits x) = is_work x
is_pending (held i) = true
is_pending (follows p) = true

abbrev pub is_at : Status → Place → Bool
is_at (waits x) y = same_place x y
is_at _ y = false

abbrev pub is_held : Status → ℕ → Bool
is_held (held i) j = i == j
is_held _ j = false

abbrev pub is_after : Status → Ptr → Bool
is_after (follows p) q = p == q
is_after _ q = false

-- What the ledger is about: which queue holds which address, the current jobs of the threads, and
-- of an address, whether a job is there that can be executed, and its continuation.
pub record View : Type 0 where
  pub queued : Place → Ptr → Bool
  pub current : ℕ → Ptr
  pub is_ready : Ptr → Bool
  pub next : Ptr → Ptr

-- Each address is where its status says and nowhere else, and a pending job can be executed. `rank` shows
-- that continuations do not go round in a ring.
pub record IsLedger (v : View) (st : Ptr → Status) (rank : Ptr → ℕ) (pending : List Ptr)
    : Type 0 where
  pub waiting : (x : Place) (p : Ptr) → v.queued x p ≡ is_at (st p) x
  pub holding : (i : ℕ) (p : Ptr) → (p == nullptr) ≡ false → (v.current i == p) ≡ is_held (st p) i
  pub following :
      (q p : Ptr)
      → (p == nullptr) ≡ false
      → (is_pending (st q) && v.next q == p) ≡ is_after (st p) q
  pub ready : (p : Ptr) → is_pending (st p) ≡ true → v.is_ready p ≡ true
  pub null : is_pending (st nullptr) ≡ false
  pub ranked : (q p : Ptr) → is_after (st p) q ≡ true → rank q < rank p
  pub listed : (p : Ptr) → mem p pending ≡ is_pending (st p)
  pub distinct : Distinct pending

abbrev pub set_status : Ptr → Status → (Ptr → Status) → Ptr → Status
set_status p t st a = if a == p then t else st a

-- Only a pending address is held or follows.
pub held-pending : (t : Status) (i : ℕ) → is_pending t ≡ false → is_held t i ≡ false
held-pending nowhere i e = refl
held-pending (waits x) i e = refl
held-pending (held j) i e = cc
held-pending (follows p) i e = refl

pub after-pending : (t : Status) (q : Ptr) → is_pending t ≡ false → is_after t q ≡ false
after-pending nowhere q e = refl
after-pending (waits x) q e = refl
after-pending (held j) q e = refl
after-pending (follows p) q e = cc

-- A ledger is about no more than what its view shows.
pub same-IsLedger :
    (v w : View) (st : Ptr → Status) (rank : Ptr → ℕ) (pending : List Ptr)
    → IsLedger v st rank pending
    → ((y : Place) (a : Ptr) → w.queued y a ≡ v.queued y a)
    → ((i : ℕ) → w.current i ≡ v.current i)
    → ((a : Ptr) → (w.is_ready a ≡ v.is_ready a) × (w.next a ≡ v.next a))
    → IsLedger w st rank pending
same-IsLedger v w st rank pending d queued current same = record {
  waiting = λ y a. queued y a ∙ d.waiting y a;
  holding = λ i a na. ap (λ p. p == a) (current i) ∙ d.holding i a na;
  following = λ q a na. ap (λ p. is_pending (st q) && p == a) (same q).1 ∙ d.following q a na;
  ready = λ a m. (same a).0 ∙ d.ready a m;
  null = d.null;
  ranked = d.ranked;
  listed = d.listed;
  distinct = d.distinct;
}
