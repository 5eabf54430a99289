-- ===== src/JobQueue/Shared/Linear.antt =====
-- The operations of several threads on one JobQueue (src/job/job_queue.cpp) act one after the other.
use bop.Common.{
  ℕ, ◌≡◌, refl, sym, subst, ap, ap₂, ◌∙◌, true, false, List, [], ◌∷◌, ◌++◌, if◌then◌else◌,
  Bool-cases, eqb_refl, inl, inr,
}
use mathlib.Core.Bool.{false≢true}
use bop.Memory.{Ptr, Heap, Run, ok, fault, stuck, aborted, Returns}
use bop.Queue.{IntrusiveList}
use bop.Queue.Shape.{IsQueue, empty-IsQueue}
use bop.Queue.Fifo
use bop.Queue.Fifo.{Call, Answer, spec_step, spec_run, Admits, Refines, step-spec_step}
use bop.Job.{Job, job_link}
use bop.JobQueue.Shared.Stages.{
  has_flag, IsCurrent, IsLinear, changed, same_flag, others_without, IsCurrent-without,
  IsCurrent-same, none_with_flag, only_me,
}
use bop.JobQueue.Shared.{
  Stage, idle, spinning, entered, changing, leaving, Shared, set_stage, set_flag, write_list,
  clear_flag, contents, Step, calls_it, tries, reads, writes, leaves, Reachable, start, after,
}

-- A step that changes nothing but the stage of `me`, and not whether that has the flag.
stage-IsLinear :
    (me : ℕ) (p : Stage) (s : Shared)
    → IsLinear s
    → has_flag p ≡ has_flag (s.stage me)
    → IsCurrent s p
    → IsLinear (set_stage me p s)
stage-IsLinear me p s d e now = record {
  flagged = λ i m. d.flagged i (sym (same_flag me p s e i) ∙ m);
  held = λ set. let (i, m) = d.held set in (i, same_flag me p s e i ∙ m);
  alone = λ i j m n. d.alone i j (sym (same_flag me p s e i) ∙ m) (sym (same_flag me p s e j) ∙ n);
  current = λ i.
      changed (IsCurrent (set_stage me p s)) me p s i
        (IsCurrent-same s (set_stage me p s) p refl refl now)
        λ apart. IsCurrent-same s (set_stage me p s) (s.stage i) refl refl (d.current i);
  list = d.list;
  intact = d.intact;
  answered = d.answered;
}

-- One call more.
spec_run-snoc :
    (ps : List Ptr) (cs : List Call) (c : Call)
    → spec_run ps (cs ++ c ∷ [])
      ≡ (let r = spec_run ps cs in let t = spec_step r.0 c in (t.0, r.1 ++ t.1 ∷ []))
spec_run-snoc ps [] c = refl
spec_run-snoc ps (b ∷ cs) c =
    ap (λ r. (r.0, (spec_step ps b).1 ∷ r.1)) (spec_run-snoc (spec_step ps b).0 cs c)

enter-IsLinear :
    (me : ℕ) (c : Call) (s : Shared)
    → IsLinear s
    → s.queue.lock ≡ false
    → IsLinear (set_stage me (entered c) (set_flag true s))
enter-IsLinear me c s d clear =
    let t = set_stage me (entered c) (set_flag true s) in
    let only = only_me me (entered c) s λ i apart. none_with_flag s d clear i in
    record {
      flagged = λ i m. refl;
      held = λ set. (me, ap (λ b. has_flag (if b then entered c else s.stage me)) (eqb_refl me));
      alone = λ i j m n. sym (only i m).0 ∙ (only j n).0;
      current = λ i.
          changed (IsCurrent t) me (entered c) s i tt
            λ apart. IsCurrent-same s t (s.stage i) refl refl (d.current i);
      list = d.list;
      intact = d.intact;
      answered = d.answered;
    }

leave-IsLinear :
    (me : ℕ) (a : Answer) (s : Shared)
    → IsLinear s
    → s.stage me ≡ leaving a
    → IsLinear (clear_flag me s)
leave-IsLinear me a s d at =
    let others = others_without me s d (ap has_flag at) in
    let only = only_me me idle s others in
    record {
      flagged = λ i m. absurd (false≢true (only i m).1);
      held = λ set. absurd (false≢true set);
      alone = λ i j m n. absurd (false≢true (only i m).1);
      current = λ i.
          changed (IsCurrent (clear_flag me s)) me idle s i tt
            λ apart. IsCurrent-same s (clear_flag me s) (s.stage i) refl refl (d.current i);
      list = d.list;
      intact = d.intact;
      answered = d.answered;
    }

write-IsLinear :
    (me : ℕ) (c : Call) (h : Heap Job) (l : IntrusiveList)
    (r : Run ((Heap Job × IntrusiveList) × Answer)) (s : Shared)
    → IsLinear s
    → s.stage me ≡ changing c h l
    → Returns (Refines job_link s.heap (spec_step (contents s) c).0 (spec_step (contents s) c).1) r
    → IsLinear (write_list me c r s)
write-IsLinear me c h l (ok r) s d at e =
    let others = others_without me s d (ap has_flag at) in
    let only = only_me me (leaving r.1) s others in
    let snoc = spec_run-snoc [] s.calls c in
    record {
      flagged = λ i m. d.flagged me (ap has_flag at);
      held = λ set. (me, ap (λ b. has_flag (if b then leaving r.1 else s.stage me)) (eqb_refl me));
      alone = λ i j m n. sym (only i m).0 ∙ (only j n).0;
      current = λ i.
          changed (IsCurrent (write_list me c (ok r) s)) me (leaving r.1) s i tt
            λ apart. IsCurrent-without (write_list me c (ok r) s) (s.stage i) (others i apart);
      list = subst (IsQueue job_link r.0.0 r.0.1) (sym (ap (λ t. t.0) snoc)) e.queue;
      intact = d.intact;
      answered = ap₂ (λ as' a. as' ++ a ∷ []) d.answered e.answer ∙ sym (ap (λ t. t.1) snoc);
    }
write-IsLinear me c h l fault s d at e = absurd e
write-IsLinear me c h l stuck s d at e = absurd e
write-IsLinear me c h l aborted s d at e = absurd e

-- What an operation does to what its thread has read, it does to what is there.
change-Refines :
    (me : ℕ) (c : Call) (h : Heap Job) (l : IntrusiveList) (s : Shared)
    → IsLinear s
    → s.stage me ≡ changing c h l
    → Admits s.heap (contents s) c
    → Returns
        (Refines job_link s.heap (spec_step (contents s) c).0 (spec_step (contents s) c).1)
        (Fifo.step job_link (h, l) c)
change-Refines me c h l s d at adm =
    let read = subst (IsCurrent s) at (d.current me) in
    subst
      (Returns (Refines job_link s.heap (spec_step (contents s) c).0 (spec_step (contents s) c).1))
      (ap₂ (λ g k. Fifo.step job_link (g, k) c) (sym read.0) (sym read.1))
      (step-spec_step job_link s.heap s.queue.list (contents s) c d.list adm)

Step-IsLinear : (s t : Shared) → IsLinear s → Step s t → IsLinear t
Step-IsLinear s _ d (calls_it me c _ at) =
    stage-IsLinear me (spinning c) s d (sym (ap has_flag at)) tt
Step-IsLinear s _ d (tries me c _ at) = elim (Bool-cases s.queue.lock) [
  | inl set ↦
      subst IsLinear
        (sym (ap (λ b. if b then s else set_stage me (entered c) (set_flag true s)) set)) d
  | inr clear ↦
      subst IsLinear
        (sym (ap (λ b. if b then s else set_stage me (entered c) (set_flag true s)) clear))
        (enter-IsLinear me c s d clear)
]
Step-IsLinear s _ d (reads me c _ at) =
    stage-IsLinear me (changing c s.heap s.queue.list) s d (sym (ap has_flag at)) (refl, refl)
Step-IsLinear s _ d (writes me c h l _ at adm) =
    write-IsLinear me c h l (Fifo.step job_link (h, l) c) s d at
      (change-Refines me c h l s d at adm)
Step-IsLinear s _ d (leaves me a _ at) = leave-IsLinear me a s d at

-- Whatever steps the threads take on one queue, in any order: a thread that has the flag is alone
-- with it, and the flag is set exactly while there is one; no operation goes through a pointer to no
-- job; and the operations that have taken effect were answered as by a first-in first-out list that
-- got them one after the other, whose elements are the queued jobs. Each push is of a live job that
-- is not queued when it takes effect.
pub Reachable-IsLinear : (h : Heap Job) (s : Shared) → Reachable h s → IsLinear s
Reachable-IsLinear h _ start = record {
  flagged = λ i m. absurd (false≢true m);
  held = λ set. absurd (false≢true set);
  alone = λ i j m n. absurd (false≢true m);
  current = λ i. tt;
  list = empty-IsQueue job_link h;
  intact = refl;
  answered = refl;
}
Reachable-IsLinear h _ (after {s} {t} way step) =
    Step-IsLinear s t (Reachable-IsLinear h s way) step
