-- ===== src/JobSystem/Complete/Family.antt =====
-- A job and the parents that job_completed (src/job/job_system.cpp) climbs to.
use bop.Common.{
  ℕ, ◌≡◌, ap, ◌∙◌, Bool, true, false, Option, none, some, List, [], ◌∷◌, arith, mem, leb, dec32,
  ◌==◌, if◌then◌else◌, Bool-cases, inl, inr, ◌⊎◌,
}
use bop.Memory.{Ptr, nullptr, Heap}
use bop.Queue.Shape.{unlinked}
use bop.Job.{Job, job_link}
use bop.JobSystem.State.{System}
use bop.JobSystem.Inv.{Contents, Inv, NotQueued}
use bop.JobSystem.Complete.Recycle.{IsBounded, recycled, recycled-IsBounded, recycled-NotQueued}

-- From `p` the parents are `qs`, as far as job_completed climbs: every job but the last is on its
-- last part, and so is the last one if it has no parent. The jobs that complete are in no queue.
abbrev pub Climb : Heap Job → Contents → Ptr → List Ptr → Type 0
Climb h c p [] =
    (j : Job) × (h p ≡ some j)
    × ((p == nullptr) ≡ false)
    × ((leb j.num_children 1 ≡ false)
        ⊎ ((leb j.num_children 1 ≡ true) × (j.parent ≡ nullptr) × NotQueued c p))
Climb h c p (a ∷ qs) =
    (j : Job) × (h p ≡ some j)
    × ((p == nullptr) ≡ false)
    × (leb j.num_children 1 ≡ true)
    × (j.parent ≡ a)
    × ((a == nullptr) ≡ false)
    × NotQueued c p
    × (mem p (a ∷ qs) ≡ false)
    × Climb h c a qs

abbrev pub is_last_part : Heap Job → Ptr → Bool
is_last_part h p = elim (h p) [ none ↦ false | some j ↦ leb j.num_children 1 ]

-- The contents after: the eldest job goes to the bin first.
abbrev pub completed : ℕ → Heap Job → Contents → Ptr → List Ptr → Contents
completed me h c p [] = if is_last_part h p then recycled me c p else c
completed me h c p (a ∷ qs) = recycled me (completed me h c a qs) p

-- The job with one part less.
abbrev pub one_less : Option Job → Option Job
one_less none = none
one_less (some j) = some (record j { num_children = dec32 j.num_children })

abbrev pub counted_down : List Ptr → Heap Job → Heap Job
counted_down ps h a = if mem a ps then one_less (h a) else h a

pub Climb-same :
    (h g : Heap Job) (c : Contents) (p : Ptr) (qs : List Ptr)
    → ((a : Ptr) → mem a (p ∷ qs) ≡ true → g a ≡ h a)
    → Climb h c p qs
    → Climb g c p qs
Climb-same h g c p [] same (j, e, ne, rest) = (j, same p (ground arith) ∙ e, ne, rest)
Climb-same h g c p (a ∷ qs) same (j, e, ne, last, up, ne', out, new, rest) = (
  j,
  same p (ground arith) ∙ e,
  ne,
  last,
  up,
  ne',
  out,
  new,
  Climb-same h g c a qs (λ b m. same b (ground arith)) rest,
)

pub completed-same :
    (me : ℕ) (h g : Heap Job) (c : Contents) (p : Ptr) (qs : List Ptr)
    → ((a : Ptr) → mem a (p ∷ qs) ≡ true → g a ≡ h a)
    → completed me g c p qs ≡ completed me h c p qs
completed-same me h g c p [] same =
    ap (λ b. if b then recycled me c p else c)
      (ap (λ (o : Option Job). elim o [ none ↦ false | some j ↦ leb j.num_children 1 ])
        (same p (ground arith)))
completed-same me h g c p (a ∷ qs) same =
    ap (λ d. recycled me d p) (completed-same me h g c a qs (λ b m. same b (ground arith)))

pub completed-NotQueued :
    (me : ℕ) (h : Heap Job) (c : Contents) (p : Ptr) (qs : List Ptr) (x : Ptr)
    → NotQueued c x
    → mem x (p ∷ qs) ≡ false
    → NotQueued (completed me h c p qs) x
completed-NotQueued me h c p [] x out new = elim (Bool-cases (is_last_part h p)) [
  | inl last ↦ rw last (recycled-NotQueued me c p x out (ground arith))
  | inr more ↦ rw more out
]
completed-NotQueued me h c p (a ∷ qs) x out new =
    recycled-NotQueued me (completed me h c a qs) p x
      (completed-NotQueued me h c a qs x out (ground arith)) (ground arith)

pub completed-IsBounded :
    (me : ℕ) (h : Heap Job) (c : Contents) (p : Ptr) (qs : List Ptr)
    → IsBounded me c
    → IsBounded me (completed me h c p qs)
completed-IsBounded me h c p [] b = elim (Bool-cases (is_last_part h p)) [
  | inl last ↦ rw last (recycled-IsBounded me c p b)
  | inr more ↦ rw more b
]
completed-IsBounded me h c p (a ∷ qs) b =
    recycled-IsBounded me (completed me h c a qs) p (completed-IsBounded me h c a qs b)

-- What job_completed leaves.
pub record Completed (me : ℕ) (s : System) (c : Contents) (p : Ptr) (qs : List Ptr)
    (r : System × Bool) : Type 0 where
  pub inv : Inv r.0 (completed me s.heap c p qs)
  pub fields :
      (a : Ptr)
      → unlinked job_link (r.0.heap a) ≡ unlinked job_link (counted_down (p ∷ qs) s.heap a)
  pub result : r.1 ≡ is_last_part s.heap p
  pub env : r.0.env ≡ s.env

pub is_last_part_lem :
    (h : Heap Job) (p : Ptr) (j : Job) → h p ≡ some j → is_last_part h p ≡ leb j.num_children 1
is_last_part_lem h p j e = rw (is_last_part, e)
