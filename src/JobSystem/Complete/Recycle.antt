-- ===== src/JobSystem/Complete/Recycle.antt =====
-- What recycle leaves, and the bound of the recycling bin.
use bop.Common.{
  ℕ, ◌+◌, ◌≤◌, ◌≡◌, refl, false, [], ◌∷◌, ◌++◌, arith, length, length-append, mem-append, leb, ◌==◌,
  if◌then◌else◌, Bool-cases, inl, inr,
}
use bop.Memory.{Ptr, IsLive, Returns, Returns-mono}
use bop.Queue.Shape.{SameButLinks}
use bop.Job.{job_link}
use bop.JobSystem.State.{Place, recycling_bin, garbage_bin, same_place, System, push_at}
use bop.JobSystem.Inv.{Contents, Inv, put, NotQueued, PushedAt, push_at-PushedAt}
use bop.JobSystem.Complete.{recycling_capacity, recycle}

-- The recycling bin takes one job more than its capacity.
abbrev pub IsBounded : ℕ → Contents → Type 0
IsBounded me c = length (c (recycling_bin me)) ≤ recycling_capacity + 1

-- The bin that takes the next job.
abbrev pub bin_for : ℕ → Contents → Place
bin_for me c =
    if leb (length (c (recycling_bin me))) recycling_capacity
    then recycling_bin me
    else garbage_bin me

abbrev pub recycled : ℕ → Contents → Ptr → Contents
recycled me c p = let x = bin_for me c in put c x (c x ++ p ∷ [])

pub recycled-IsBounded :
    (me : ℕ) (c : Contents) (p : Ptr) → IsBounded me c → IsBounded me (recycled me c p)
recycled-IsBounded me c p b =
    elim (Bool-cases (leb (length (c (recycling_bin me))) recycling_capacity)) [
      | inl room ↦ rw room (ground (arith, length-append {0} (c (recycling_bin me)) (p ∷ [])))
      | inr full ↦ rw full b
    ]

pub recycled-NotQueued :
    (me : ℕ) (c : Contents) (p a : Ptr)
    → NotQueued c a
    → (a == p) ≡ false
    → NotQueued (recycled me c p) a
recycled-NotQueued me c p a out ne y = elim (Bool-cases (same_place (bin_for me c) y)) [
  | inl hit ↦ rw (hit, mem-append a (c (bin_for me c)) (p ∷ []), out (bin_for me c), ne)
  | inr miss ↦ rw miss (out y)
]

pub record Recycled (me : ℕ) (s : System) (c : Contents) (p : Ptr) (t : System) : Type 0 where
  pub inv : Inv t (recycled me c p)
  pub fields : SameButLinks job_link s.heap t.heap
  pub env : t.env ≡ s.env

-- In a well-formed pool whose recycling bin is within its bound, recycle puts a live job that no
-- queue holds at the back of the caller's recycling bin, and at the back of its garbage bin if the
-- recycling bin holds more than its capacity. It changes no other queue, no member but the queues,
-- and nothing of a job but its link.
pub recycle-Recycled :
    (me : ℕ) (s : System) (c : Contents) (p : Ptr)
    → Inv s c
    → IsBounded me c
    → IsLive s.heap p
    → NotQueued c p
    → Returns (Recycled me s c p) (recycle me p s)
unfolding recycle
recycle-Recycled me s c p inv bounded live out =
    rw size (elim (Bool-cases (leb (length (c (recycling_bin me))) recycling_capacity)) [
      | inl room ↦ rw room (
          Returns-mono (PushedAt s c (recycling_bin me) p) _ (push_at (recycling_bin me) p s)
            (push_at-PushedAt s c (recycling_bin me) inv refl p live out)
            λ t d. record { inv = rw room d.inv; fields = d.fields; env = d.env })
      | inr full ↦ rw full (
          Returns-mono (PushedAt s c (garbage_bin me) p) _ (push_at (garbage_bin me) p s)
            (push_at-PushedAt s c (garbage_bin me) inv refl p live out)
            λ t d. record { inv = rw full d.inv; fields = d.fields; env = d.env })
    ])
  where
    size : (s.queues (recycling_bin me)).list.num_entries ≡ length (c (recycling_bin me))
    size = omega (arith, (inv.idle (recycling_bin me)).list.count, bounded)
