-- ===== src/JobSystem/Worker/Chain.antt =====
-- A worker that executes a job goes on with its continuations, in order.
use bop.Common.{
  mem_self, mem_later, eqb_of_mem, ap₂, append-nil, append_assoc, sym, ◌++◌, ℕ, zero, suc, ◌<◌, ◌≡◌,
  refl, ap, ◌∙◌, true, false, Option, none, some, List, [], ◌∷◌, arith, mem, length, first, leb,
  ◌==◌,
}
use bop.Memory.{Ptr, nullptr, Heap, Run, Returns, Returns-bind, Returns-mono}
use bop.Queue.Shape.{unlinked}
use bop.Job.{Job, Work, job_link, Outcome}
use bop.JobSystem.State.{System}
use bop.JobSystem.Inv.{Contents, Inv, NotQueued}
use bop.JobSystem.Complete.Recycle.{IsBounded, recycled, recycled-NotQueued, recycled-IsBounded}
use bop.JobSystem.Worker.Execute.{Ran, execute-Ran, runs}
use bop.JobSystem.Worker.{execute, execute_all}

-- From `p` the continuations are `ps`, each on its last part, without a parent, and in no queue.
abbrev pub Chain : Heap Job → Contents → List Ptr → Type 0
Chain h c [] = Unit
Chain h c (p ∷ ps) =
    ((j : Job) × (h p ≡ some j)
      × (leb j.num_children 1 ≡ true)
      × (j.parent ≡ nullptr)
      × (j.continuation ≡ first ps nullptr))
    × ((p == nullptr) ≡ false)
    × NotQueued c p
    × (mem p ps ≡ false)
    × Chain h c ps

-- The job at `p` after a change of links alone.
pub relinked :
    (j : Job) (o : Option Job)
    → unlinked job_link o ≡ unlinked job_link (some j)
    → (k : Job) × (o ≡ some k)
      × (k.num_children ≡ j.num_children)
      × (k.parent ≡ j.parent)
      × (k.continuation ≡ j.continuation)
      × (k.work ≡ j.work)
relinked j none e = cc
relinked j (some k) e = (k, refl, ground arith, ground arith, ground arith, ap (work_of j.work) e)
  where
    work_of : Work → Option Job → Work
    work_of w none = w
    work_of w (some k) = k.work

Chain-same :
    (me : ℕ) (h g : Heap Job) (c : Contents) (q : Ptr) (ps : List Ptr)
    → ((a : Ptr) → (a == q) ≡ false → unlinked job_link (g a) ≡ unlinked job_link (h a))
    → mem q ps ≡ false
    → Chain h c ps
    → Chain g (recycled me c q) ps
Chain-same me h g c q [] same new chain = tt
Chain-same me h g c q (p ∷ ps) same new ((j, e, last, root, next), ne, out, apart, chain) =
    let p_ne : (p == q) ≡ false = ground arith in
    let (k, e', n, r, k', w) = relinked j (g p) (same p p_ne ∙ ap (unlinked job_link) e) in
    (
      (k, e', ap (λ m. leb m 1) n ∙ last, r ∙ root, k' ∙ next),
      ne,
      recycled-NotQueued me c q p out p_ne,
      apart,
      Chain-same me h g c q ps same (ground arith) chain,
    )

-- The callables of a job, and of jobs.
abbrev pub runs_at : Option Job → List ℕ
runs_at none = []
runs_at (some j) = runs j.work

abbrev pub runs_of : Heap Job → List Ptr → List ℕ
runs_of h [] = []
runs_of h (p ∷ ps) = runs_at (h p) ++ runs_of h ps

pub runs_at-unlinked : (o : Option Job) → runs_at (unlinked job_link o) ≡ runs_at o
runs_at-unlinked none = refl
runs_at-unlinked (some j) = refl

pub runs_at-same :
    (o u : Option Job) → unlinked job_link u ≡ unlinked job_link o → runs_at u ≡ runs_at o
runs_at-same o u e = sym (runs_at-unlinked u) ∙ ap runs_at e ∙ runs_at-unlinked o

pub runs_of-same :
    (g h : Heap Job) (ps : List Ptr)
    → ((a : Ptr) → mem a ps ≡ true → runs_at (g a) ≡ runs_at (h a))
    → runs_of g ps ≡ runs_of h ps
runs_of-same g h [] same = refl
runs_of-same g h (p ∷ ps) same =
    ap₂ (λ xs ys. xs ++ ys) (same p (mem_self p ps))
      (runs_of-same g h ps λ a m. same a (mem_later a p ps m))

-- A callable that returns, leaves the jobs and the queues of the pool alone, and records that it has run.
abbrev pub IsQuiet : (ℕ → System → Run (System × Outcome)) → Type 0
IsQuiet body =
    (f : ℕ) (s : System)
    → Returns
        (λ r.
          (r.0.heap ≡ s.heap) × (r.0.queues ≡ s.queues) × (r.0.env.called ≡ s.env.called ++ f ∷ []))
        (body f s)

abbrev pub recycled_all : ℕ → Contents → List Ptr → Contents
recycled_all me c [] = c
recycled_all me c (p ∷ ps) = recycled_all me (recycled me c p) ps

module _ (body : ℕ → System → Run (System × Outcome)) (clock : ℕ → System → ℕ)
    (quiet : IsQuiet body) (me : ℕ) where
  -- One round: the job is recycled, and its continuation is next.
  record Executed (s : System) (c : Contents) (p : Ptr) (ps : List Ptr) (r : System × Ptr)
      : Type 0 where
    inv : Inv r.0 (recycled me c p)
    next : r.1 ≡ first ps nullptr
    chain : Chain r.0.heap (recycled me c p) ps
    called : r.0.env.called ≡ s.env.called ++ runs_at (s.heap p)
    works : runs_of r.0.heap ps ≡ runs_of s.heap ps

  execute-Executed :
      (fuel : ℕ) (s : System) (c : Contents) (p : Ptr) (ps : List Ptr)
      → Inv s c
      → IsBounded me c
      → Chain s.heap c (p ∷ ps)
      → 0 < fuel
      → Returns (Executed s c p ps) (execute body clock fuel me p s)
  execute-Executed fuel s c p ps inv b ((j, e, last, root, next), ne, out, apart, chain) enough =
      Returns-mono (Ran me (λ _ _. Unit) s c p j) _ (execute body clock fuel me p s)
        (execute-Ran body clock me (λ _ _. Unit)
          (λ f t. Returns-mono _ _ (body f t) (quiet f t) (λ r d. (d.0, d.1, tt, d.2))) (λ e. tt)
          fuel s c p j inv b e ne last root out enough)
        λ r d. record {
          inv = d.inv;
          next = d.next ∙ next;
          chain = Chain-same me s.heap r.0.heap c p ps d.others apart chain;
          called = d.called ∙ ap (λ o. s.env.called ++ runs_at o) (sym e);
          works = runs_of-same r.0.heap s.heap ps λ a m.
              runs_at-same (s.heap a) (r.0.heap a) (d.others a (ground (arith, eqb_of_mem p a ps)));
        }

  -- In a well-formed pool whose recycling bin is within its bound, if the callables return, leave the pool alone and record that they have run, the rounds of a worker
  -- go through a chain of continuations without parents, each on its last part and in no queue: with
  -- more fuel than jobs they come to its end. The callables of the jobs have run then, in the order of the chain and
  -- each once, and the jobs are recycled.
  pub execute_all-Chain :
      (fuel : ℕ) (s : System) (c : Contents) (ps : List Ptr)
      → Inv s c
      → IsBounded me c
      → Chain s.heap c ps
      → length ps < fuel
      → Returns
          (λ (t, jobs).
            (jobs ≡ ps)
            × Inv t (recycled_all me c ps)
            × (t.env.called ≡ s.env.called ++ runs_of s.heap ps))
          (execute_all body clock fuel me (first ps nullptr) s)
  unfolding execute_all
  execute_all-Chain zero s c ps inv b chain enough = absurd (omega arith)
  execute_all-Chain (suc fuel) s c [] inv b chain enough =
      (refl, inv, sym (append-nil s.env.called))
  execute_all-Chain (suc fuel) s c (p ∷ ps) inv b chain enough = rw chain.1 (
      Returns-bind (Executed s c p ps) _ (execute body clock fuel me p s) _
        (execute-Executed fuel s c p ps inv b chain (omega arith))
        λ (t, q) d. rw d.next (
          Returns-bind _ _ (execute_all body clock fuel me (first ps nullptr) t) _
            (execute_all-Chain fuel t (recycled me c p) ps d.inv (recycled-IsBounded me c p b)
              d.chain (omega arith))
            λ (u, jobs) (same, inv', ran). (
              ap (λ l. p ∷ l) same,
              inv',
              ran
                  ∙ ap₂ (λ xs ys. xs ++ ys) d.called d.works
                  ∙ append_assoc s.env.called (runs_at (s.heap p)) (runs_of s.heap ps),
            )))
