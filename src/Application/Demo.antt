-- ===== src/Application/Demo.antt =====
-- A job with a chain of continuations, as main makes it (src/main.cpp).
pub mod Main
use bop.Common.{
  ℕ, zero, suc, ◌≡◌, refl, sym, subst, ap, ap₂, ◌∙◌, true, false, Option, none, some, List, [], ◌∷◌,
  ◌++◌, arith, first, mem, Distinct, ◌==◌, leb, eqb_sym, eq_of_eqb, Bool-cases, inl, inr, tail,
}
use bop.Memory.{Ptr, nullptr, Heap, Run, ok, ◌>>=◌, Returns, Returns-bind, Returns-mono}
use bop.Job.{Job, Work, callable}
use bop.JobSystem.State.{recycling_bin, System}
use bop.JobSystem.Inv.{Contents, Inv, put, put_self, NotQueued}
use bop.JobSystem.Schedule.{schedule, then_job}
use bop.JobSystem.Schedule.Create.{IsFresh, bin_rest, IsFor}
use bop.JobSystem.Schedule.Continue.{Chained, then_job_lem, none-ne-some}
use bop.JobSystem.Worker.Chain.{Chain, runs_at, runs_of}
use bop.JobSystem.Worker.Execute.{runs}

-- `.then(fn).then(fn)...` of a job, with the address that the memory resource returns for each.
unfoldable pub then_all : ℕ → Ptr → List (Ptr × Work) → System → Run System
then_all me job [] s = ok s
then_all me job ((fresh, fn) ∷ rest) s = do
  (s1, next) ← then_job me fresh job fn none s
  then_all me next rest s1

abbrev pub addresses : List (Ptr × Work) → List Ptr
addresses [] = []
addresses ((fresh, fn) ∷ rest) = fresh ∷ addresses rest

-- The callables of the continuations, in order.
abbrev pub all_runs : List (Ptr × Work) → List ℕ
all_runs [] = []
all_runs ((fresh, fn) ∷ rest) = runs fn ++ all_runs rest

abbrev pub AllFresh : System → List Ptr → Type 0
AllFresh s [] = Unit
AllFresh s (p ∷ ps) = IsFresh s p × AllFresh s ps

pub AllFresh-same :
    (s t : System) (q : Ptr) (ps : List Ptr)
    → ((a : Ptr) → (a == q) ≡ false → s.heap a ≡ none → t.heap a ≡ none)
    → mem q ps ≡ false
    → AllFresh s ps
    → AllFresh t ps
AllFresh-same s t q [] same out new = tt
AllFresh-same s t q (p ∷ ps) same out ((ne, free), new) =
    ((ne, same p (ground arith) free), AllFresh-same s t q ps same (ground arith) new)

ne_of_none : (h : Heap Job) (a p : Ptr) (j : Job) → h a ≡ none → h p ≡ some j → (a == p) ≡ false
ne_of_none h a p j free found = elim (Bool-cases (a == p)) [
  | inl same ↦ absurd (none-ne-some (sym free ∙ ap h (eq_of_eqb a p same) ∙ found))
  | inr apart ↦ apart
]

pub fresh-out :
    (s : System) (p : Ptr) (j : Job) (ps : List Ptr)
    → s.heap p ≡ some j
    → AllFresh s ps
    → mem p ps ≡ false
fresh-out s p j [] found new = refl
fresh-out s p j (q ∷ ps) found ((ne, free), new) =
    ground (arith, ne_of_none s.heap q p j free found, fresh-out s p j ps found new)

-- What the calls of `then` leave, of the job that they begin at and of all the others.
pub record Attached (s : System) (c : Contents) (job : Ptr) (j : Job) (ps : List Ptr)
    (works : List ℕ) (t : System) : Type 0 where
  pub inv : Inv t c
  pub head : t.heap job ≡ some (record j { continuation = first ps nullptr })
  pub chain : Chain t.heap c ps
  pub runs : runs_of t.heap ps ≡ works
  pub env : t.env ≡ s.env
  pub others : (a : Ptr) → (a == job) ≡ false → mem a ps ≡ false → t.heap a ≡ s.heap a

module _ (me : ℕ) (c : Contents) (empty : c (recycling_bin me) ≡ []) where
  pub same_contents : bin_rest me c ≡ c
  same_contents =
      put_self c (recycling_bin me) (tail (c (recycling_bin me))) (empty ∙ sym (ap tail empty))

  -- The first call of `then`, and what the others leave.
  attach_first :
      (s s1 t : System) (job fresh : Ptr) (j n : Job) (fn : Work) (ps : List Ptr) (works : List ℕ)
      → IsFresh s fresh
      → AllFresh s ps
      → mem fresh ps ≡ false
      → s.heap job ≡ some j
      → Chained me fresh s c job j fn none (s1, fresh)
      → (n.num_children ≡ 1) × (n.parent ≡ nullptr) × (n.work ≡ fn)
      → Attached s1 c fresh n ps works t
      → Attached s c job j (fresh ∷ ps) (runs fn ++ works) t
  attach_first s s1 t job fresh j n fn ps works new news out found d (one_part, no_parent, its) ih =
      record {
        inv = ih.inv;
        head =
            ih.others job (eqb_sym fresh job (ne_of_none s.heap fresh job j new.1 found))
              (fresh-out s job j ps found news)
            ∙ d.chained;
        chain = (
          (
            record n { continuation = first ps nullptr },
            ih.head,
            ap (λ m. leb m 1) one_part,
            no_parent,
            refl,
          ),
          new.0,
          subst (λ x. NotQueued x fresh) same_contents d.out,
          out,
          ih.chain,
        );
        runs = ap₂ (λ xs ys. xs ++ ys) (ap runs_at ih.head ∙ ap runs its) ih.runs;
        env = ih.env ∙ d.env;
        others = λ a apart m.
            ih.others a (ground arith) (ground arith) ∙ d.others a apart (ground arith);
      }

  pub then_all-Attached :
      (rest : List (Ptr × Work)) (s : System) (job : Ptr) (j : Job)
      → Inv s c
      → AllFresh s (addresses rest)
      → Distinct (addresses rest)
      → s.heap job ≡ some j
      → j.continuation ≡ nullptr
      → (job == nullptr) ≡ false
      → Returns (Attached s c job j (addresses rest) (all_runs rest)) (then_all me job rest s)
  unfolding then_all
  then_all-Attached [] s job j inv new distinct found last ne = record {
    inv = inv;
    head = found ∙ ap (λ k. some (record j { continuation = k })) last;
    chain = tt;
    runs = refl;
    env = refl;
    others = λ a e m. refl;
  }
  then_all-Attached ((fresh, fn) ∷ rest) s job j inv (new, news) (out, distinct) found last ne =
      Returns-bind (Chained me fresh s c job j fn none) _ (then_job me fresh job fn none s) _
        (then_job_lem me fresh s c inv new job j fn none found ne (rw empty refl))
        λ (s1, next) d0.
          let same : next ≡ fresh = d0.address ∙ ap (λ l. first l fresh) empty in
          let d = subst (λ q. Chained me fresh s c job j fn none (s1, q)) same d0 in
          let (n, there, is_for) = d.next in
          subst
            (λ q.
              Returns (Attached s c job j (fresh ∷ addresses rest) (runs fn ++ all_runs rest))
                (then_all me q rest s1))
            (sym same)
            (Returns-mono (Attached s1 c fresh n (addresses rest) (all_runs rest)) _
              (then_all me fresh rest s1)
              (then_all-Attached rest s1 fresh n (subst (Inv s1) same_contents d.inv)
                (AllFresh-same s s1 fresh (addresses rest)
                  (λ a apart free. d.others a (ne_of_none s.heap a job j free found) apart ∙ free)
                  out news)
                distinct there is_for.2 new.0)
              λ t ih.
                attach_first s s1 t job fresh j n fn (addresses rest) (all_runs rest) new news out
                  found d (is_for.0, is_for.1, is_for.5) ih)
