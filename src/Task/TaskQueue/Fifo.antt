-- ===== src/Task/TaskQueue/Fifo.antt =====
-- Whole histories of a TaskQueue against those of the list alone, and of a first-in first-out list.
use bop.Common.{◌≡◌, refl, sym, ◌∙◌, false, List, [], ◌∷◌}
use bop.Memory.{Ptr, Heap, Run, ok, ◌>>=◌, Returns, Returns-bind, bind_assoc, bind_ext}
use bop.Queue
use bop.Queue.{IntrusiveList}
use bop.Queue.Fifo
use bop.Queue.Fifo.{
  Call, pushes, pops, clears, asks_size, Answer, done, popped, counted, spec_run, AdmitsAll,
  Refines,
}
use bop.Queue.Shape.{IsQueue}
use bop.Task.{Task, task_link}
use bop.Task.TaskQueue.{TaskQueue, lock_guard, release, push, pop, clear, size}

abbrev pub step : Heap Task × TaskQueue → Call → Run ((Heap Task × TaskQueue) × Answer)
step (h, q) (pushes p) = do r ← push h q p; ok (r, done)
step (h, q) pops = do (q', p) ← pop h q; ok ((h, q'), popped p)
step (h, q) clears = do (q', n) ← clear q; ok ((h, q'), counted n)
step (h, q) asks_size = do (q', n) ← size q; ok ((h, q'), counted n)

unfoldable pub run : Heap Task × TaskQueue → List Call → Run ((Heap Task × TaskQueue) × List Answer)
run s [] = ok (s, [])
run s (c ∷ cs) = do (s', a) ← step s c; (s'', as') ← run s' cs; ok (s'', a ∷ as')

abbrev pub free : IntrusiveList → TaskQueue
free l = record { mutex = false; list = l }

-- A state of the list, behind a flag that is clear.
abbrev pub guarded : {A : Type 0} → (Heap Task × IntrusiveList) × A → (Heap Task × TaskQueue) × A
guarded ((h, l), a) = ((h, free l), a)

step-step :
    (h : Heap Task) (l : IntrusiveList) (c : Call)
    → step (h, free l) c ≡ (Fifo.step task_link (h, l) c >>= λ r. ok (guarded r))
unfolding push pop clear size release lock_guard Fifo.step Queue.size
step-step h l (pushes p) =
    bind_assoc (Queue.push task_link h l p) _ _ ∙ sym (bind_assoc (Queue.push task_link h l p) _ _)
step-step h l pops =
    bind_assoc (Queue.pop task_link h l) _ _ ∙ sym (bind_assoc (Queue.pop task_link h l) _ _)
step-step h l clears = refl
step-step h l asks_size = refl

-- Behind a flag that is clear, a history of calls does to the list what it does without the flag, and
-- the flag is clear again after it.
run-run :
    (h : Heap Task) (l : IntrusiveList) (cs : List Call)
    → run (h, free l) cs ≡ (Fifo.run task_link (h, l) cs >>= λ r. ok (guarded r))
unfolding run Fifo.run
run-run h l [] = refl
run-run h l (c ∷ cs) = rw (step-step h l c) (
    bind_assoc (Fifo.step task_link (h, l) c) _ _
    ∙ bind_ext (Fifo.step task_link (h, l) c) _ _ (λ ((h', l'), a). rw (run-run h' l' cs) (
        bind_assoc (Fifo.run task_link (h', l') cs) _ _
        ∙ sym (bind_assoc (Fifo.run task_link (h', l') cs) _ _)))
    ∙ sym (bind_assoc (Fifo.step task_link (h, l) c) _ _))

-- Any history of calls of a TaskQueue whose flag is clear, in which only live tasks are pushed that are
-- not queued already, returns. It is answered as by a first-in first-out list, leaves the flag clear,
-- and changes nothing of a task but its link.
pub run-spec_run_guarded :
    (h : Heap Task) (l : IntrusiveList) (ps : List Ptr) (cs : List Call)
    → IsQueue task_link h l ps
    → AdmitsAll h ps cs
    → Returns
        (λ ((g, q), as').
          (q.mutex ≡ false)
          × Refines task_link h (spec_run ps cs).0 (spec_run ps cs).1 ((g, q.list), as'))
        (run (h, free l) cs)
run-spec_run_guarded h l ps cs q adm = rw (run-run h l cs) (
    Returns-bind (Refines task_link h (spec_run ps cs).0 (spec_run ps cs).1) _
      (Fifo.run task_link (h, l) cs) _ (Fifo.run-spec_run task_link h l ps cs q adm)
      λ r d. (refl, d))
