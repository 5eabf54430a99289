-- ===== src/JobSystem/History/Account.antt =====
-- The callables of the jobs that are pending, in a history of the pool (src/job/job_system.cpp).
use bop.Common.{
  ℕ, ◌+◌, ◌≡◌, refl, sym, ap, ap₂, ◌∙◌, true, false, List, [], ◌∷◌, ◌++◌, arith, ◌==◌, mem,
  Bool-cases, eq_of_eqb, eqb_of_mem, eqb_sym, append-nil, append_assoc, inl, inr,
}
use bop.Memory.{Ptr, Heap}
use bop.Job.{Job}
use bop.JobSystem.State.{System}
use bop.JobSystem.Worker.Chain.{runs_at, runs_of, runs_of-same}
use bop.JobSystem.History.Ledger.Erase.{erase, occurs, occurs-append}

pub runs_of-append :
    (h : Heap Job) (ps qs : List Ptr) → runs_of h (ps ++ qs) ≡ runs_of h ps ++ runs_of h qs
runs_of-append h [] qs = refl
runs_of-append h (p ∷ ps) qs =
    ap (λ l. runs_at (h p) ++ l) (runs_of-append h ps qs)
    ∙ sym (append_assoc (runs_at (h p)) (runs_of h ps) (runs_of h qs))

pub runs_of-erase :
    (f : ℕ) (h : Heap Job) (p : Ptr) (ps : List Ptr)
    → mem p ps ≡ true
    → occurs f (runs_of h ps) ≡ occurs f (runs_at (h p)) + occurs f (runs_of h (erase p ps))
runs_of-erase f h p [] m = cc
runs_of-erase f h p (a ∷ ps) m = elim (Bool-cases (a == p)) [
  | inl hit ↦ rw hit (
      occurs-append f (runs_at (h a)) (runs_of h ps)
      ∙ ap (λ k. occurs f (runs_at (h k)) + occurs f (runs_of h ps)) (eq_of_eqb a p hit))
  | inr miss ↦ rw miss (
      omega (
        arith,
        occurs-append f (runs_at (h a)) (runs_of h ps),
        occurs-append f (runs_at (h a)) (runs_of h (erase p ps)),
        runs_of-erase f h p ps (ground (arith, m, eqb_sym a p miss)),
      ))
]

-- Every callable that was asked for has run, or its job is pending, as often as it was asked for.
abbrev pub IsAccounted : List ℕ → System → List Ptr → Type 0
IsAccounted asked s pending =
    (f : ℕ) → occurs f asked ≡ occurs f s.env.called + occurs f (runs_of s.heap pending)

-- Nothing has run, and the jobs have their callables.
pub same-IsAccounted :
    (asked : List ℕ) (s t : System) (pending : List Ptr)
    → t.env.called ≡ s.env.called
    → ((a : Ptr) → mem a pending ≡ true → runs_at (t.heap a) ≡ runs_at (s.heap a))
    → IsAccounted asked s pending
    → IsAccounted asked t pending
same-IsAccounted asked s t pending called same k f =
    k f
    ∙ sym
        (ap₂ (λ xs ys. occurs f xs + occurs f ys) called (runs_of-same t.heap s.heap pending same))

-- A job is made for `works`.
pub record Gains (s t : System) (p : Ptr) (works : List ℕ) (pending : List Ptr) : Type 0 where
  pub called : t.env.called ≡ s.env.called
  pub others : (a : Ptr) → (a == p) ≡ false → runs_at (t.heap a) ≡ runs_at (s.heap a)
  pub here : runs_at (t.heap p) ≡ works
  pub new : mem p pending ≡ false

pub added-IsAccounted :
    (asked works : List ℕ) (s t : System) (p : Ptr) (pending : List Ptr)
    → Gains s t p works pending
    → IsAccounted asked s pending
    → IsAccounted (asked ++ works) t (pending ++ p ∷ [])
added-IsAccounted asked works s t p pending d k f =
    let same =
      runs_of-same t.heap s.heap pending
        λ a m. d.others a (eqb_sym p a (eqb_of_mem p a pending d.new m)) in
    let all : runs_of t.heap (pending ++ p ∷ []) ≡ runs_of s.heap pending ++ works =
      runs_of-append t.heap pending (p ∷ [])
      ∙ ap₂ (λ xs ys. xs ++ ys) same (append-nil (runs_at (t.heap p)) ∙ d.here) in
    omega (
      arith,
      occurs-append f asked works,
      ap (occurs f) all,
      occurs-append f (runs_of s.heap pending) works,
      ap (occurs f) d.called,
      k f,
    )

-- The callable of a pending job has run, and the job is not pending any more.
pub ran-IsAccounted :
    (asked : List ℕ) (s t : System) (p : Ptr) (pending : List Ptr)
    → mem p pending ≡ true
    → mem p (erase p pending) ≡ false
    → t.env.called ≡ s.env.called ++ runs_at (s.heap p)
    → ((a : Ptr) → (a == p) ≡ false → runs_at (t.heap a) ≡ runs_at (s.heap a))
    → IsAccounted asked s pending
    → IsAccounted asked t (erase p pending)
ran-IsAccounted asked s t p pending m gone called others k f =
    let same =
      runs_of-same t.heap s.heap (erase p pending)
        λ a there. others a (eqb_sym p a (eqb_of_mem p a (erase p pending) gone there)) in
    omega (
      arith,
      ap (occurs f) called,
      occurs-append f s.env.called (runs_at (s.heap p)),
      ap (occurs f) same,
      runs_of-erase f s.heap p pending m,
      k f,
    )
