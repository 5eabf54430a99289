-- ===== src/Queue/Fifo.antt =====
-- Whole histories of an intrusive list against a first-in first-out list of addresses.
use bop.Common.{
  ℕ, ◌%◌, ◌^◌, ◌≡◌, refl, false, List, [], ◌∷◌, ◌++◌, length, first, tail, mem, ap, ap₂,
}
use bop.Memory.{Ptr, nullptr, Heap, Run, ok, ◌>>=◌, IsLive, Returns, Returns-bind}
use bop.Queue.{Linked, IntrusiveList, push, pop, clear, size}
use bop.Queue.Shape.{IsQueue, SameButLinks, SameButLinks-trans, IsLive-same}
use bop.Queue.Ops.{Pushed, push-snoc, Popped, pop-tail, clear-nil}

-- A call of a queue, and what it answers.
pub data Call : Type 0 where
  pushes : Ptr → Call
  pops clears asks_size : Call

pub data Answer : Type 0 where
  done : Answer
  popped : Ptr → Answer
  counted : ℕ → Answer

-- The queue as its clients see it: a list of addresses. The counter is a uint32_t.
abbrev pub spec_step : List Ptr → Call → List Ptr × Answer
spec_step ps (pushes p) = (ps ++ p ∷ [], done)
spec_step ps pops = (tail ps, popped (first ps nullptr))
spec_step ps clears = ([], counted (length ps % 2 ^ 32))
spec_step ps asks_size = (ps, counted (length ps % 2 ^ 32))

abbrev pub spec_run : List Ptr → List Call → List Ptr × List Answer
spec_run ps [] = (ps, [])
spec_run ps (c ∷ cs) =
    let (qs, a) = spec_step ps c in let (rs, as') = spec_run qs cs in (rs, a ∷ as')

-- Only live nodes are pushed, and none that is queued already.
abbrev pub Admits : {N : Type 0} → Heap N → List Ptr → Call → Type 0
Admits h ps (pushes p) = IsLive h p × (mem p ps ≡ false)
Admits h ps pops = Unit
Admits h ps clears = Unit
Admits h ps asks_size = Unit

abbrev pub AdmitsAll : {N : Type 0} → Heap N → List Ptr → List Call → Type 0
AdmitsAll h ps [] = Unit
AdmitsAll h ps (c ∷ cs) = Admits h ps c × AdmitsAll h (spec_step ps c).0 cs

module _ {N : Type 0} (link : Linked N) where
  unfoldable pub step : Heap N × IntrusiveList → Call → Run ((Heap N × IntrusiveList) × Answer)
  step (h, l) (pushes p) = do r ← push link h l p; ok (r, done)
  step (h, l) pops = do (l', p) ← pop link h l; ok ((h, l'), popped p)
  step (h, l) clears = let (l', n) = clear l in ok ((h, l'), counted n)
  step (h, l) asks_size = ok ((h, l), counted (size l))

  unfoldable pub run :
      Heap N × IntrusiveList → List Call → Run ((Heap N × IntrusiveList) × List Answer)
  run s [] = ok (s, [])
  run s (c ∷ cs) = do (s', a) ← step s c; (s'', as') ← run s' cs; ok (s'', a ∷ as')

  -- The outcome is the specification's, and the nodes are the same but for their links.
  pub record Refines (h : Heap N) (ps : List Ptr) {A : Type 0} (a : A)
      (r : (Heap N × IntrusiveList) × A) : Type 0 where
    pub queue : IsQueue link r.0.0 r.0.1 ps
    pub answer : r.1 ≡ a
    pub fields : SameButLinks link h r.0.0

  pub step-spec_step :
      (h : Heap N) (l : IntrusiveList) (ps : List Ptr) (c : Call)
      → IsQueue link h l ps
      → Admits h ps c
      → Returns (Refines h (spec_step ps c).0 (spec_step ps c).1) (step (h, l) c)
  unfolding step size
  step-spec_step h l ps (pushes p) q (live, out) =
      Returns-bind (Pushed link h ps p) _ (push link h l p) _ (push-snoc link h l p ps q live out)
        λ r d. record { queue = d.queue; answer = refl; fields = d.fields }
  step-spec_step h l ps pops q adm =
      Returns-bind (Popped link h ps) _ (pop link h l) _ (pop-tail link h l ps q)
        λ r d. record { queue = d.1; answer = ap popped d.0; fields = λ a. refl }
  step-spec_step h l ps clears q adm =
      let d = clear-nil link h l ps q in
      record { queue = d.0; answer = ap counted d.1; fields = λ a. refl }
  step-spec_step h l ps asks_size q adm = record {
    queue = q;
    answer = ap counted q.count;
    fields = λ a. refl;
  }

  pub AdmitsAll-same :
      (h g : Heap N) (ps : List Ptr) (cs : List Call)
      → SameButLinks link h g
      → AdmitsAll h ps cs
      → AdmitsAll g ps cs
  AdmitsAll-same h g ps [] same adm = tt
  AdmitsAll-same h g ps (pushes p ∷ cs) same ((live, out), adm) =
      ((IsLive-same link h g p same live, out), AdmitsAll-same h g _ cs same adm)
  AdmitsAll-same h g ps (pops ∷ cs) same adm = (tt, AdmitsAll-same h g _ cs same adm.1)
  AdmitsAll-same h g ps (clears ∷ cs) same adm = (tt, AdmitsAll-same h g _ cs same adm.1)
  AdmitsAll-same h g ps (asks_size ∷ cs) same adm = (tt, AdmitsAll-same h g _ cs same adm.1)

  -- Any history of calls on an intrusive list that pushes only live nodes which are not queued returns.
  -- It is answered as by a first-in first-out list, and changes nothing of a node but its link.
  pub run-spec_run :
      (h : Heap N) (l : IntrusiveList) (ps : List Ptr) (cs : List Call)
      → IsQueue link h l ps
      → AdmitsAll h ps cs
      → Returns (Refines h (spec_run ps cs).0 (spec_run ps cs).1) (run (h, l) cs)
  unfolding run
  run-spec_run h l ps [] q adm = record { queue = q; answer = refl; fields = λ a. refl }
  run-spec_run h l ps (c ∷ cs) q adm =
      Returns-bind (Refines h (spec_step ps c).0 (spec_step ps c).1) _ (step (h, l) c) _
        (step-spec_step h l ps c q adm.0)
        λ r d.
          Returns-bind (Refines r.0.0 _ _) _ (run r.0 cs) _
            (run-spec_run r.0.0 r.0.1 _ cs d.queue (AdmitsAll-same h r.0.0 _ cs d.fields adm.1))
            λ t e. record {
              queue = e.queue;
              answer = ap₂ ◌∷◌ d.answer e.answer;
              fields = SameButLinks-trans link h r.0.0 t.0.0 d.fields e.fields;
            }
