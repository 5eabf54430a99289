-- ===== src/JobSystem/Complete/Climb.antt =====
-- job_completed along a chain of parents: which jobs it completes, and in which order.
use bop.Common.{
  ℕ, zero, suc, ◌<◌, ◌≡◌, refl, sym, subst, ap, ◌∙◌, Bool, true, false, some, List, [], ◌∷◌, arith,
  mem, length, dec32, ◌==◌, Bool-cases, eqb_sym, eqb_refl, eq_of_eqb, eqb_of_mem, inl, inr, ◌⊎◌,
}
use bop.Memory.{
  Ptr, nullptr, ok, ◌>>=◌, load_lem, IsLive, IsLive-of_some, write_self, write_other, Returns,
  Returns-bind,
}
use bop.Queue.Shape.{unlinked, is_some-unlinked}
use bop.Job.{Job, job_link}
use bop.JobSystem.State.{System}
use bop.JobSystem.Inv.{Contents, Inv, NotQueued, relinked-Inv}
use bop.JobSystem.Schedule.{store}
use bop.JobSystem.Complete.{recycle, job_completed}
use bop.JobSystem.Complete.Recycle.{IsBounded, recycled, Recycled, recycle-Recycled}
use bop.JobSystem.Complete.Family.{
  Climb, completed, counted_down, Climb-same, completed-same, completed-NotQueued,
  completed-IsBounded, Completed, is_last_part_lem,
}

-- The first step, at a job that is there: its counter goes down.
module _ (me : ℕ) (s : System) (c : Contents) (p : Ptr) (j : Job) (e : s.heap p ≡ some j)
    (ne : (p == nullptr) ≡ false) (inv : Inv s c) where
  abbrev stepped : System
  stepped = store p (record j { num_children = dec32 j.num_children }) s

  stepped-Inv : Inv stepped c
  stepped-Inv = relinked-Inv s c p j _ e refl inv

  stepped-IsLive : IsLive stepped.heap p
  stepped-IsLive = IsLive-of_some stepped.heap p _ ne (write_self s.heap p _)

  stepped-other : (a : Ptr) → (a == p) ≡ false → stepped.heap a ≡ s.heap a
  stepped-other a = write_other s.heap p _ a

  stepped-down : (a : Ptr) → stepped.heap a ≡ counted_down (p ∷ []) s.heap a
  stepped-down a = elim (Bool-cases (a == p)) [
    | inl hit ↦
        let at_p : a ≡ p = eq_of_eqb a p hit in
        rw (
          at_p,
          eqb_refl p,
          write_self s.heap p (some (record j { num_children = dec32 j.num_children })),
          e,
        )
    | inr miss ↦ rw (miss, stepped-other a miss)
  ]

  -- Behind a climb from `a` to `qs`, none of which is `p`.
  stepped-climbed :
      (a : Ptr) (qs : List Ptr) (t : System)
      → mem p (a ∷ qs) ≡ false
      → ((b : Ptr)
          → unlinked job_link (t.heap b) ≡ unlinked job_link (counted_down (a ∷ qs) stepped.heap b))
      → (b : Ptr)
      → unlinked job_link (t.heap b) ≡ unlinked job_link (counted_down (p ∷ a ∷ qs) s.heap b)
  stepped-climbed a qs t new fields b =
      fields b ∙ ap (unlinked job_link) (same (Bool-cases (b == p)))
    where
      same :
          ((b == p) ≡ true) ⊎ ((b == p) ≡ false)
          → counted_down (a ∷ qs) stepped.heap b ≡ counted_down (p ∷ a ∷ qs) s.heap b
      same (inl hit) =
          let apart : mem b (a ∷ qs) ≡ false =
            subst (λ x. mem x (a ∷ qs) ≡ false) (sym (eq_of_eqb b p hit)) new in
          rw apart (stepped-down b)
      same (inr miss) = rw (miss, stepped-other b miss)

module _ (me : ℕ) where
  -- job_completed at a job `p` whose parents `qs` it climbs to (each but the last of them on its last
  -- part), in a well-formed pool whose recycling bin is within its bound, and with more fuel than parents, returns whether `p` is complete.
  -- The counter of `p` and of each of those parents goes down by one, and the jobs that reach zero
  -- are recycled, the eldest first; the other fields and the other queues stay as they were.
  pub job_completed-Completed :
      (fuel : ℕ) (s : System) (c : Contents) (p : Ptr) (qs : List Ptr)
      → Inv s c
      → IsBounded me c
      → Climb s.heap c p qs
      → length qs < fuel
      → Returns (Completed me s c p qs) (job_completed fuel me p s)
  unfolding job_completed
  job_completed-Completed zero s c p qs inv b climb enough = absurd (omega arith)
  job_completed-Completed (suc fuel) s c p [] inv b (j, e, ne, inl more) enough =
      let last = is_last_part_lem s.heap p j e ∙ more in
      rw (load_lem s.heap p j ne e, more)
        (record {
          inv = rw last (stepped-Inv me s c p j e ne inv);
          fields = λ a. ap (unlinked job_link) (stepped-down me s c p j e ne inv a);
          result = sym last;
          env = refl;
        })
  job_completed-Completed (suc fuel) s c p [] inv b (j, e, ne, inr (now, root, out)) enough =
      let last = is_last_part_lem s.heap p j e ∙ now in
      let s1 = stepped me s c p j e ne inv in
      let root' : (j.parent == nullptr) ≡ true = ap (λ q. q == nullptr) root in
      rw (load_lem s.heap p j ne e, now, root')
        (Returns-bind (Recycled me s1 c p) _ (recycle me p s1) _
          (recycle-Recycled me s1 c p (stepped-Inv me s c p j e ne inv) b
            (stepped-IsLive me s c p j e ne inv) out)
          λ t d. record {
            inv = rw last d.inv;
            fields = λ a. d.fields a ∙ ap (unlinked job_link) (stepped-down me s c p j e ne inv a);
            result = sym last;
            env = d.env;
          })
  job_completed-Completed (suc fuel) s c p (a ∷ qs) inv b (j, e, ne, now, up, ne', out, new, rest)
        enough =
      subst (λ q. Returns (Completed me s c p (q ∷ qs)) (job_completed (suc fuel) me p s)) up
        (rw (load_lem s.heap p j ne e, now, ne_parent)
          (Returns-bind Climbed _ (job_completed fuel me j.parent s1 >>= λ r. ok r.0) _
            (Returns-bind (Completed me s1 c j.parent qs) Climbed
              (job_completed fuel me j.parent s1) (λ r. ok r.0)
              (job_completed-Completed fuel s1 c j.parent qs s1-Inv b
                (Climb-same s.heap s1.heap c j.parent qs s1-above
                  (subst (λ q. Climb s.heap c q qs) (sym up) rest))
                (omega arith))
              λ (t, done) d. (done, d))
            λ t (done, d).
              Returns-bind (Recycled me t (completed me s1.heap c j.parent qs) p) _ (recycle me p t)
                _
                (recycle-Recycled me t (completed me s1.heap c j.parent qs) p d.inv
                  (completed-IsBounded me s1.heap c j.parent qs b) (still_live t d.fields)
                  (not_queued t))
                λ u r. record {
                  inv =
                      subst (λ d'. Inv u (recycled me d' p))
                        (completed-same me s.heap s1.heap c j.parent qs s1-above) r.inv;
                  fields = λ x.
                      r.fields x
                      ∙ stepped-climbed me s c p j e ne inv j.parent qs t new' d.fields x;
                  result = sym (is_last_part_lem s.heap p j e ∙ now);
                  env = r.env ∙ d.env;
                }))
    where
      ne_parent : (j.parent == nullptr) ≡ false
      ne_parent = rw up ne'

      new' : mem p (j.parent ∷ qs) ≡ false
      new' = rw up new

      s1 : System
      s1 = stepped me s c p j e ne inv

      s1-Inv : Inv s1 c
      s1-Inv = stepped-Inv me s c p j e ne inv

      s1-above : (x : Ptr) → mem x (j.parent ∷ qs) ≡ true → s1.heap x ≡ s.heap x
      s1-above x m =
          stepped-other me s c p j e ne inv x (eqb_sym p x (eqb_of_mem p x (j.parent ∷ qs) new' m))

      Climbed : System → Type 0
      Climbed t = (done : Bool) × Completed me s1 c j.parent qs (t, done)

      not_queued : (t : System) → NotQueued (completed me s1.heap c j.parent qs) p
      not_queued t = completed-NotQueued me s1.heap c j.parent qs p out new'

      still_live :
          (t : System)
          → ((x : Ptr)
              → unlinked job_link (t.heap x)
                ≡ unlinked job_link (counted_down (j.parent ∷ qs) s1.heap x))
          → IsLive t.heap p
      still_live t fields = (
        ne,
        is_some-unlinked job_link (s1.heap p) (t.heap p)
            (fields p ∙ ap (unlinked job_link) unchanged) (stepped-IsLive me s c p j e ne inv).1,
      )
        where
          unchanged : counted_down (j.parent ∷ qs) s1.heap p ≡ s1.heap p
          unchanged = rw new'
