-- ===== src/JobQueue/Locked.antt =====
-- JobQueue against the list behind its flag, and against a first-in first-out list of jobs.
use bop.Common.{◌≡◌, refl, true, false, List, [], ◌∷◌, mem, first, tail, ap, ap₂}
use bop.Memory.{Ptr, Heap, Run, ok, stuck, ◌>>=◌, Returns, Returns-bind, IsLive}
use bop.Queue.{IntrusiveList, empty}
use bop.Queue
use bop.Queue.Shape.{IsQueue, SameButLinks, SameButLinks-trans}
use bop.Queue.Ops.{Pushed, push-snoc, Popped, pop-tail, clear-nil}
use bop.Queue.Fifo.{
  Call, pushes, pops, clears, asks_size, Answer, done, popped, counted, spec_step, spec_run, Admits,
  AdmitsAll, AdmitsAll-same,
}
use bop.Job.{Job, job_link}
use bop.JobQueue.{JobQueue, acquire, push, pop, clear, size}

-- A queue whose flag is clear, and whose list stands for `ps`.
pub record IsIdle (h : Heap Job) (q : JobQueue) (ps : List Ptr) : Type 0 where
  pub free : q.lock ≡ false
  pub list : IsQueue job_link h q.list ps

pub record LockedPushed (h : Heap Job) (ps : List Ptr) (work : Ptr) (r : Heap Job × JobQueue)
    : Type 0 where
  pub free : r.1.lock ≡ false
  pub pushed : Pushed job_link h ps work (r.0, r.1.list)

pub push-snoc_locked :
    (h : Heap Job) (q : JobQueue) (work : Ptr) (ps : List Ptr)
    → IsIdle h q ps
    → IsLive h work
    → mem work ps ≡ false
    → Returns (LockedPushed h ps work) (push h q work)
unfolding push acquire
push-snoc_locked h q work ps idle live out = rw idle.free (
    Returns-bind (Pushed job_link h ps work) _ (Queue.push job_link h q.list work) _
      (push-snoc job_link h q.list work ps idle.list live out)
      λ r d. record { free = refl; pushed = d })

abbrev pub LockedPopped : Heap Job → List Ptr → JobQueue × Ptr → Type 0
LockedPopped h ps (q, p) = (p ≡ first ps 0) × IsIdle h q (tail ps)

pub pop-tail_locked :
    (h : Heap Job) (q : JobQueue) (ps : List Ptr)
    → IsIdle h q ps
    → Returns (LockedPopped h ps) (pop h q)
unfolding pop acquire
pop-tail_locked h q ps idle = rw idle.free (
    Returns-bind (Popped job_link h ps) _ (Queue.pop job_link h q.list) _
      (pop-tail job_link h q.list ps idle.list) λ r d. (d.0, record { free = refl; list = d.1 }))

-- A call of a JobQueue.
unfoldable pub step : Heap Job × JobQueue → Call → Run ((Heap Job × JobQueue) × Answer)
step (h, q) (pushes p) = do r ← push h q p; ok (r, done)
step (h, q) pops = do (q', p) ← pop h q; ok ((h, q'), popped p)
step (h, q) clears = do (q', n) ← clear q; ok ((h, q'), counted n)
step (h, q) asks_size = do (q', n) ← size q; ok ((h, q'), counted n)

unfoldable pub run : Heap Job × JobQueue → List Call → Run ((Heap Job × JobQueue) × List Answer)
run s [] = ok (s, [])
run s (c ∷ cs) = do (s', a) ← step s c; (s'', as') ← run s' cs; ok (s'', a ∷ as')

pub record LockedRefines (h : Heap Job) (ps : List Ptr) {A : Type 0} (a : A)
    (r : (Heap Job × JobQueue) × A) : Type 0 where
  pub idle : IsIdle r.0.0 r.0.1 ps
  pub answer : r.1 ≡ a
  pub fields : SameButLinks job_link h r.0.0

step-spec_step :
    (h : Heap Job) (q : JobQueue) (ps : List Ptr) (c : Call)
    → IsIdle h q ps
    → Admits h ps c
    → Returns (LockedRefines h (spec_step ps c).0 (spec_step ps c).1) (step (h, q) c)
unfolding step clear size acquire Queue.size
step-spec_step h q ps (pushes p) i (live, out) =
    Returns-bind (LockedPushed h ps p) _ (push h q p) _ (push-snoc_locked h q p ps i live out)
      λ r d. record {
        idle = record { free = d.free; list = d.pushed.queue };
        answer = refl;
        fields = d.pushed.fields;
      }
step-spec_step h q ps pops i adm =
    Returns-bind (LockedPopped h ps) _ (pop h q) _ (pop-tail_locked h q ps i)
      λ r d. record { idle = d.1; answer = ap popped d.0; fields = λ a. refl }
step-spec_step h q ps clears i adm =
    let d = clear-nil job_link h q.list ps i.list in
    rw i.free (record {
      idle = record { free = refl; list = d.0 };
      answer = ap counted d.1;
      fields = λ a. refl;
    })
step-spec_step h q ps asks_size i adm = rw i.free (record {
  idle = record { free = refl; list = i.list };
  answer = ap counted i.list.count;
  fields = λ a. refl;
})

-- Any history of calls of a JobQueue whose flag is clear, in which only live jobs are pushed that
-- are not queued already, returns. It is answered as by a first-in first-out list, leaves the flag
-- clear, and changes nothing of a job but its link.
pub run-spec_run_locked :
    (h : Heap Job) (q : JobQueue) (ps : List Ptr) (cs : List Call)
    → IsIdle h q ps
    → AdmitsAll h ps cs
    → Returns (LockedRefines h (spec_run ps cs).0 (spec_run ps cs).1) (run (h, q) cs)
unfolding run
run-spec_run_locked h q ps [] i adm = record { idle = i; answer = refl; fields = λ a. refl }
run-spec_run_locked h q ps (c ∷ cs) i adm =
    Returns-bind (LockedRefines h (spec_step ps c).0 (spec_step ps c).1) _ (step (h, q) c) _
      (step-spec_step h q ps c i adm.0)
      λ r d.
        Returns-bind (LockedRefines r.0.0 _ _) _ (run r.0 cs) _
          (run-spec_run_locked r.0.0 r.0.1 _ cs d.idle
            (AdmitsAll-same job_link h r.0.0 _ cs d.fields adm.1))
          λ t e. record {
            idle = e.idle;
            answer = ap₂ ◌∷◌ d.answer e.answer;
            fields = SameButLinks-trans job_link h r.0.0 t.0.0 d.fields e.fields;
          }

-- While the flag is set none of the operations returns: a thread that took the lock must give it
-- back before it calls the queue again.
held_stuck : (h : Heap Job) (q : JobQueue) (c : Call) → q.lock ≡ true → step (h, q) c ≡ stuck
unfolding step push pop clear size acquire
held_stuck h q (pushes p) held = rw held
held_stuck h q pops held = rw held
held_stuck h q clears held = rw held
held_stuck h q asks_size held = rw held
