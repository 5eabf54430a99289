-- ===== src/JobSystem/Schedule/Create.antt =====
-- What create_job and construct return: a job in its first state that no queue holds.
use bop.Common.{
  ℕ, ◌≡◌, refl, sym, subst, ap, ◌∙◌, false, Option, none, some, List, [], ◌∷◌, arith, first, tail,
  mem, mem_self, ◌==◌, if◌then◌else◌, Bool-cases, inl, inr,
}
use bop.Memory.{
  Ptr, nullptr, Heap, Run, ok, fault, ◌>>=◌, IsLive, IsLive-cases, IsLive-of_some, load, load_lem,
  write, write_self, write_other, Returns, Returns-bind, Returns-mono,
}
use bop.Job.{Job, Work, new_job, reset}
use bop.JobSystem.State.{recycling_bin, System, pop_at}
use bop.JobSystem.Inv.{
  Contents, Inv, put, NotQueued, PoppedAt, pop_at-PoppedAt, queued-IsLive, first-NotQueued,
  store-Inv,
}
use bop.JobSystem.Schedule.{store, create_job, construct}

-- The address that the memory resource returns holds no object, and is not null.
abbrev pub IsFresh : System → Ptr → Type 0
IsFresh s p = ((p == nullptr) ≡ false) × (s.heap p ≡ none)

abbrev pub bin_rest : ℕ → Contents → Contents
bin_rest me c = put c (recycling_bin me) (tail (c (recycling_bin me)))

-- The job comes from the recycling bin, and is `fresh` if that is empty. No other job has changed.
pub record Created (me : ℕ) (fresh : Ptr) (s : System) (c : Contents) (j : Job) (r : System × Ptr)
    : Type 0 where
  pub inv : Inv r.0 (bin_rest me c)
  pub address : r.1 ≡ first (c (recycling_bin me)) fresh
  pub ne_null : (r.1 == nullptr) ≡ false
  pub out : NotQueued (bin_rest me c) r.1
  pub job : r.0.heap r.1 ≡ some j
  pub others : (a : Ptr) → (a == r.1) ≡ false → r.0.heap a ≡ s.heap a
  pub env : r.0.env ≡ s.env

-- The fields that create_job sets, on either path.
abbrev pub IsNew : Job → Type 0
IsNew j =
    (j.num_children ≡ 1) × (j.parent ≡ nullptr) × (j.continuation ≡ nullptr) × (j.next ≡ nullptr)

-- The job that construct makes for a call `construct(fn, parent, thread_index)`.
abbrev pub IsFor : Work → Ptr → Option ℕ → Job → Type 0
IsFor fn parent thread_index j =
    (j.num_children ≡ 1)
    × (j.parent ≡ parent)
    × (j.continuation ≡ nullptr)
    × (j.next ≡ nullptr)
    × (j.thread_index ≡ thread_index)
    × (j.work ≡ fn)

pub fresh-NotQueued :
    (s : System) (c : Contents) (p : Ptr) → Inv s c → s.heap p ≡ none → NotQueued c p
fresh-NotQueued s c p inv e x = elim (Bool-cases (mem p (c x))) [
  | inl m ↦ ground (arith, queued-IsLive s c x p inv m)
  | inr out ↦ out
]

module _ (me : ℕ) (fresh : Ptr) (s : System) (c : Contents) (inv : Inv s c)
    (new : IsFresh s fresh) where
  -- The two paths behind the pop of the bin.
  finish-Created :
      (bin : List Ptr)
      → c (recycling_bin me) ≡ bin
      → (r : System × Ptr) → PoppedAt s c (recycling_bin me) r
      → Returns
          (λ t. (j : Job) × IsNew j × Created me fresh s c j t)
          (if r.1 == nullptr
            then (if fresh == nullptr
                then bop.Memory.aborted
                else ok (store fresh new_job r.0, fresh))
            else (do j ← load r.0.heap r.1; ok (store r.1 (reset j) r.0, r.1)))
  unfolding reset
  finish-Created [] e (t, p) d =
      let is_null : p ≡ nullptr = d.job ∙ ap (λ l. first l nullptr) e in
      let unused : t.heap fresh ≡ none = ap (λ h. h fresh) d.heap ∙ new.1 in
      let out : NotQueued (bin_rest me c) fresh =
        fresh-NotQueued t (bin_rest me c) fresh d.inv unused in
      rw (is_null, new.0)
        (
          new_job,
          (refl, refl, refl, refl),
          record {
            inv = store-Inv t (bin_rest me c) fresh (some new_job) out d.inv;
            address = sym (ap (λ l. first l fresh) e);
            ne_null = new.0;
            out = out;
            job = write_self t.heap fresh (some new_job);
            others = λ a ne. write_other t.heap fresh (some new_job) a ne ∙ ap (λ h. h a) d.heap;
            env = d.env;
          },
        )
  finish-Created (b ∷ bin) e (t, p) d =
      let at_b : p ≡ b = d.job ∙ ap (λ l. first l nullptr) e in
      let live : IsLive s.heap b =
        queued-IsLive s c (recycling_bin me) b inv (rw e (mem_self b bin)) in
      let (j, found) = IsLive-cases s.heap b live in
      let found' : t.heap b ≡ some j = ap (λ h. h b) d.heap ∙ found in
      let out : NotQueued (bin_rest me c) b =
        subst (λ l. NotQueued (put c (recycling_bin me) (tail l)) b) (sym e)
          (first-NotQueued s c (recycling_bin me) b bin inv e) in
      rw (at_b, live.0, load_lem t.heap b j live.0 found')
        (
          reset j,
          (refl, refl, refl, refl),
          record {
            inv = store-Inv t (bin_rest me c) b (some (reset j)) out d.inv;
            address = sym (ap (λ l. first l fresh) e);
            ne_null = live.0;
            out = out;
            job = write_self t.heap b (some (reset j));
            others = λ a ne. write_other t.heap b (some (reset j)) a ne ∙ ap (λ h. h a) d.heap;
            env = d.env;
          },
        )

  -- In a well-formed pool whose memory resource offers an unused address, create_job returns a job that
  -- no queue holds, with one outstanding part, no parent, no continuation and no link: the front of the caller's recycling bin, or a new one if that is
  -- empty. It changes no other job and no other queue.
  pub create_job-Created :
      Returns (λ r. (j : Job) × IsNew j × Created me fresh s c j r) (create_job me fresh s)
  unfolding create_job
  create_job-Created =
      Returns-bind (PoppedAt s c (recycling_bin me)) _ (pop_at (recycling_bin me) s) _
        (pop_at-PoppedAt s c (recycling_bin me) inv refl)
        (finish-Created (c (recycling_bin me)) refl)

  pub construct-Created :
      (fn : Work) (parent : Ptr) (thread_index : Option ℕ)
      → Returns
          (λ r. (j : Job) × IsFor fn parent thread_index j × Created me fresh s c j r)
          (construct me fresh fn parent thread_index s)
  unfolding construct
  construct-Created fn parent thread_index =
      Returns-bind _ _ (create_job me fresh s) _ create_job-Created λ (t, p) (j, is_new, d).
        let j' = record j { parent = parent; thread_index = thread_index; work = fn } in
        rw (load_lem t.heap p j d.ne_null d.job) (
          j',
          (is_new.0, refl, is_new.2, is_new.3, refl, refl),
          record {
            inv = store-Inv t (bin_rest me c) p (some j') d.out d.inv;
            address = d.address;
            ne_null = d.ne_null;
            out = d.out;
            job = write_self t.heap p (some j');
            others = λ a ne. write_other t.heap p (some j') a ne ∙ d.others a ne;
            env = d.env;
          },
        )
