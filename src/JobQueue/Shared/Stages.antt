-- ===== src/JobQueue/Shared/Stages.antt =====
-- The stages of the threads that use one JobQueue (src/job/job_queue.cpp), and which of them has the
-- flag.
use bop.Common.{
  ℕ, ◌≡◌, refl, sym, ap, ◌∙◌, Bool, true, false, [], ◌==◌, if◌then◌else◌, Bool-cases, eq_of_eqb,
  eqb_refl, inl, inr,
}
use mathlib.Core.Bool.{false≢true}
use bop.Queue.Shape.{IsQueue}
use bop.Queue.Fifo.{spec_run}
use bop.Job.{job_link}
use bop.JobQueue.Shared.{Stage, idle, spinning, entered, changing, leaving, Shared, contents}

-- The thread has the flag.
abbrev pub has_flag : Stage → Bool
has_flag idle = false
has_flag (spinning c) = false
has_flag (entered c) = true
has_flag (changing c h l) = true
has_flag (leaving a) = true

-- What a thread has read is what is there.
abbrev pub IsCurrent : Shared → Stage → Type 0
IsCurrent s idle = Unit
IsCurrent s (spinning c) = Unit
IsCurrent s (entered c) = Unit
IsCurrent s (changing c h l) = (h ≡ s.heap) × (l ≡ s.queue.list)
IsCurrent s (leaving a) = Unit

pub record IsLinear (s : Shared) : Type 0 where
  pub flagged : (i : ℕ) → has_flag (s.stage i) ≡ true → s.queue.lock ≡ true
  pub held : s.queue.lock ≡ true → (i : ℕ) × (has_flag (s.stage i) ≡ true)
  pub alone : (i j : ℕ) → has_flag (s.stage i) ≡ true → has_flag (s.stage j) ≡ true → i ≡ j
  pub current : (i : ℕ) → IsCurrent s (s.stage i)
  pub list : IsQueue job_link s.heap s.queue.list (contents s)
  pub intact : s.failed ≡ false
  pub answered : s.answers ≡ (spec_run [] s.calls).1

-- A property of all stages, after one of them has changed.
pub changed :
    (P : Stage → Type 0) (me : ℕ) (p : Stage) (s : Shared) (i : ℕ)
    → P p
    → ((me == i) ≡ false → P (s.stage i))
    → P (if me == i then p else s.stage i)
changed P me p s i now before = elim (Bool-cases (me == i)) [
  | inl hit ↦ rw hit now
  | inr miss ↦ rw miss (before miss)
]

-- Which threads have the flag, after a stage that agrees in this with the one before.
pub same_flag :
    (me : ℕ) (p : Stage) (s : Shared)
    → has_flag p ≡ has_flag (s.stage me)
    → (i : ℕ) → has_flag (if me == i then p else s.stage i) ≡ has_flag (s.stage i)
same_flag me p s e i = elim (Bool-cases (me == i)) [
  | inl hit ↦ rw hit (e ∙ ap (λ k. has_flag (s.stage k)) (eq_of_eqb me i hit))
  | inr miss ↦ rw miss refl
]

-- The other threads do not have the flag.
pub others_without :
    (me : ℕ) (s : Shared)
    → IsLinear s
    → has_flag (s.stage me) ≡ true
    → (i : ℕ) → (me == i) ≡ false
    → has_flag (s.stage i) ≡ false
others_without me s d has i apart = elim (Bool-cases (has_flag (s.stage i))) [
  | inl both ↦
      absurd
        (false≢true (sym apart ∙ ap (λ k. me == k) (sym (d.alone me i has both)) ∙ eqb_refl me))
  | inr without ↦ without
]

-- A stage without the flag reads nothing.
pub IsCurrent-without : (s : Shared) (p : Stage) → has_flag p ≡ false → IsCurrent s p
IsCurrent-without s idle e = tt
IsCurrent-without s (spinning c) e = tt
IsCurrent-without s (entered c) e = tt
IsCurrent-without s (changing c h l) e = absurd (false≢true (sym e))
IsCurrent-without s (leaving a) e = tt

-- What a thread has read is still there while the jobs and the list are the same.
pub IsCurrent-same :
    (s t : Shared) (p : Stage)
    → s.heap ≡ t.heap
    → s.queue.list ≡ t.queue.list
    → IsCurrent s p
    → IsCurrent t p
IsCurrent-same s t idle eh el d = tt
IsCurrent-same s t (spinning c) eh el d = tt
IsCurrent-same s t (entered c) eh el d = tt
IsCurrent-same s t (changing c h l) eh el d = (d.0 ∙ eh, d.1 ∙ el)
IsCurrent-same s t (leaving a) eh el d = tt

-- With the flag clear, no thread has it.
pub none_with_flag :
    (s : Shared) → IsLinear s → s.queue.lock ≡ false → (i : ℕ) → has_flag (s.stage i) ≡ false
none_with_flag s d clear i = elim (Bool-cases (has_flag (s.stage i))) [
  | inl has ↦ absurd (false≢true (sym clear ∙ d.flagged i has))
  | inr without ↦ without
]

-- A stage in which a thread has the flag, after that of `me` has changed and where no other has it.
pub only_me :
    (me : ℕ) (p : Stage) (s : Shared)
    → ((i : ℕ) → (me == i) ≡ false → has_flag (s.stage i) ≡ false)
    → (i : ℕ) → has_flag (if me == i then p else s.stage i) ≡ true
    → (me ≡ i) × (has_flag p ≡ true)
only_me me p s others i = elim (Bool-cases (me == i)) [
  | inl hit ↦
      λ m. (eq_of_eqb me i hit, sym (ap (λ b. has_flag (if b then p else s.stage i)) hit) ∙ m)
  | inr miss ↦ λ m. absurd (
      false≢true
        (sym (others i miss) ∙ sym (ap (λ b. has_flag (if b then p else s.stage i)) miss) ∙ m))
]
