-- ===== src/JobSystem/Worker/Steal.antt =====
-- Which queues the stealing loop of a worker asks, and what it brings.
use bop.Common.{
  ℕ, zero, suc, ◌+◌, ◌-◌, ◌%◌, ◌^◌, ◌≤◌, ◌<◌, ◌≡◌, refl, sym, subst, ap, ◌∙◌, false, List, [], ◌∷◌,
  arith, mem_self, List-cases, length, first, tail, dec32, ◌==◌, if◌then◌else◌, lt→ltb, inl, inr,
}
use native.Mathlib.Nat.{mod-lt}
use bop.Memory.{Ptr, nullptr, Run, ok, ◌>>=◌, Returns, Returns-bind, Returns-mono}
use bop.JobSystem.State.{global_queue, System, Env, pop_at}
use bop.JobSystem.Inv.{Contents, Inv, put, put_self, PoppedAt, pop_at-PoppedAt, queued-IsLive}
use bop.JobSystem.Schedule.Enqueue.{next_index-mod}
use bop.JobSystem.Worker.{steal}
use bop.JobSystem.Schedule.{next_index}

-- The `k` queues behind `from`, round the ring of `n`.
abbrev pub ring : ℕ → ℕ → ℕ → List ℕ
ring n from zero = []
ring n from (suc k) = let i = (from + 1) % n in i ∷ ring n i k

-- Of the queues `is`, those asked: up to the first that holds a job.
abbrev pub asked_of : Contents → List ℕ → List ℕ
asked_of c [] = []
asked_of c (i ∷ is) = elim (c (global_queue i)) [ [] ↦ i ∷ asked_of c is | p ∷ ps ↦ i ∷ [] ]

-- The job that is brought, and what it leaves.
abbrev pub stolen_of : Contents → List ℕ → Ptr
stolen_of c [] = nullptr
stolen_of c (i ∷ is) = elim (c (global_queue i)) [ [] ↦ stolen_of c is | p ∷ ps ↦ p ]

abbrev pub left_of : Contents → List ℕ → Contents
left_of c [] = c
left_of c (i ∷ is) = elim (c (global_queue i)) [
  | [] ↦ left_of c is
  | p ∷ ps ↦ put c (global_queue i) ps
]

pub record Stolen (s : System) (c : Contents) (is : List ℕ) (r : System × Ptr × ℕ × List ℕ)
    : Type 0 where
  pub inv : Inv r.0 (left_of c is)
  pub job : r.1 ≡ stolen_of c is
  pub asked : r.3 ≡ asked_of c is
  pub bound : r.2 < s.num_threads
  pub heap : r.0.heap ≡ s.heap
  pub env : r.0.env ≡ s.env

-- The loop ends at once with a job in hand.
pub steal_held :
    (fuel attempts from : ℕ) (p : Ptr) (s : System)
    → (p == nullptr) ≡ false
    → 0 < fuel
    → steal fuel attempts from p s ≡ ok (s, p, from, [])
unfolding steal
steal_held zero attempts from p s ne enough = absurd (omega arith)
steal_held (suc fuel) attempts from p s ne enough = rw ne

module _ (fuel k i : ℕ) (is : List ℕ) (s : System) (c : Contents) (inv : Inv s c) where
  abbrev again : System × Ptr → Run (System × Ptr × ℕ × List ℕ)
  again r =
      steal fuel (suc k) i r.1 r.0 >>= λ (s2, job2, from2, asked). ok (s2, job2, from2, i ∷ asked)

  -- An empty queue was asked, and the loop goes on.
  asked_empty :
      (r : System × Ptr)
      → c (global_queue i) ≡ []
      → PoppedAt s c (global_queue i) r
      → (Inv r.0 c → Returns (Stolen r.0 c is) (steal fuel (suc k) i nullptr r.0))
      → Returns (Stolen s c (i ∷ is)) (again r)
  asked_empty (t, p) e d rest =
      let is_null : p ≡ nullptr = d.job ∙ ap (λ l. first l nullptr) e in
      let inv' : Inv t c =
        subst (Inv t)
          (ap (λ l. put c (global_queue i) (tail l)) e ∙ put_self c (global_queue i) [] e) d.inv in
      rw is_null (
        Returns-bind (Stolen t c is) _ (steal fuel (suc k) i nullptr t) _ (rest inv')
          λ (u, q, from, asked) r. record {
            inv = rw (left_of, e) r.inv;
            job = rw (stolen_of, e) r.job;
            asked = rw (asked_of, e) (ap (λ l. i ∷ l) r.asked);
            bound = subst (λ (v : Env). from < v.num_threads) d.env r.bound;
            heap = r.heap ∙ d.heap;
            env = r.env ∙ d.env;
          })

  -- A job was found, and the loop ends.
  asked_found :
      (r : System × Ptr) (q : Ptr) (ps : List Ptr)
      → c (global_queue i) ≡ q ∷ ps
      → i < s.num_threads
      → 0 < fuel
      → PoppedAt s c (global_queue i) r
      → Returns (Stolen s c (i ∷ is)) (again r)
  asked_found (t, p) q ps e lt enough d =
      let at_q : p ≡ q = d.job ∙ ap (λ l. first l nullptr) e in
      let ne : (q == nullptr) ≡ false =
        (queued-IsLive s c (global_queue i) q inv (rw e (mem_self q ps))).0 in
      rw (at_q, steal_held fuel (suc k) i q t ne enough)
        (record {
          inv = rw (left_of, e) (subst (λ l. Inv t (put c (global_queue i) (tail l))) e d.inv);
          job = rw (stolen_of, e);
          asked = rw (asked_of, e);
          bound = lt;
          heap = d.heap;
          env = d.env;
        })

-- In a well-formed pool of `n` threads the loop asks the queues behind `from` in a ring, one less
-- than `attempts` counts (modulo 2 ^ 32), until one holds a job. With more fuel than that it brings the front of that queue, or a null pointer if all were empty.
pub steal-Stolen :
    (n fuel k attempts from : ℕ) (s : System) (c : Contents)
    → Inv s c
    → s.num_threads ≡ n
    → n ≤ s.num_queues
    → n < 2 ^ 32
    → from < n
    → k < 2 ^ 32
    → dec32 attempts ≡ k
    → k < fuel
    → Returns (Stolen s c (ring n from k)) (steal fuel attempts from nullptr s)
unfolding steal
steal-Stolen n zero k attempts from s c inv threads queues small bound word count enough =
    absurd (omega arith)
steal-Stolen n (suc fuel) zero attempts from s c inv threads queues small bound word count enough =
    rw count (record {
      inv = inv;
      job = refl;
      asked = refl;
      bound = omega (arith, bound);
      heap = refl;
      env = refl;
    })
steal-Stolen n (suc fuel) (suc k) attempts from s c inv threads queues small bound word count
      enough =
    let i = (from + 1) % n in
    let i_lt : i < n = mod-lt (from + 1) (omega arith) in
    let next : next_index s.num_threads from ≡ i =
      subst (λ m. next_index m from ≡ (from + 1) % n) (sym threads)
        (next_index-mod n from bound small) in
    rw (count, lt→ltb 0 (suc k) (omega arith), next)
      (Returns-bind (PoppedAt s c (global_queue i)) _ (pop_at (global_queue i) s) _
        (pop_at-PoppedAt s c (global_queue i) inv (lt→ltb _ _ (omega (arith, i_lt))))
        λ r d. elim (List-cases (c (global_queue i))) [
          | inl e ↦ asked_empty fuel k i (ring n i k) s c inv r e d (λ inv'.
              steal-Stolen n fuel k (suc k) i r.0 c inv' (ap (λ v. v.num_threads) d.env ∙ threads)
                (subst (λ v. n ≤ v.num_queues) (sym d.env) queues) small i_lt (omega arith)
                (omega arith) (omega arith))
          | inr (q, ps, e) ↦
              asked_found fuel k i (ring n i k) s c inv r q ps e (omega (arith, i_lt)) (omega arith)
                d
        ])

length-ring : (n from k : ℕ) → length (ring n from k) ≡ k
length-ring n from zero = refl
length-ring n from (suc k) = ap suc (length-ring n ((from + 1) % n) k)

asked_all : (c : Contents) (is : List ℕ) → ((i : ℕ) → c (global_queue i) ≡ []) → asked_of c is ≡ is
asked_all c [] none_there = refl
asked_all c (i ∷ is) none_there =
    rw (asked_of, none_there i) (ap (λ l. i ∷ l) (asked_all c is none_there))

-- The rounds of the loop in a pool of `n` threads: two less than there are threads, but the whole
-- range of a uint32_t where there is one thread.
abbrev pub steal_rounds : ℕ → ℕ
steal_rounds n = if n == 1 then 2 ^ 32 - 1 else n - 2

-- As worker starts it, in a well-formed pool, the loop asks `steal_rounds` queues while all are empty:
-- two less than there are threads, but 4294967295 (its own one each time) if there is one thread.
pub steal-steal_rounds :
    (fuel from : ℕ) (s : System) (c : Contents)
    → Inv s c
    → 0 < s.num_threads
    → s.num_threads ≤ s.num_queues
    → s.num_threads < 2 ^ 32
    → from < s.num_threads
    → ((i : ℕ) → c (global_queue i) ≡ [])
    → steal_rounds s.num_threads < fuel
    → Returns
        (λ (t, job, from', asked). length asked ≡ steal_rounds s.num_threads)
        (steal fuel (dec32 s.num_threads) from nullptr s)
steal-steal_rounds fuel from s c inv some_thread queues small bound none_there enough =
    let k = steal_rounds s.num_threads in
    let count : dec32 (dec32 s.num_threads) ≡ k = ground arith in
    Returns-mono (Stolen s c (ring s.num_threads from k)) _
      (steal fuel (dec32 s.num_threads) from nullptr s)
      (steal-Stolen s.num_threads fuel k (dec32 s.num_threads) from s c inv refl queues small bound
        (ground arith) count enough)
      λ r d.
        ap length (d.asked ∙ asked_all c (ring s.num_threads from k) none_there)
        ∙ length-ring s.num_threads from k

-- With two threads the loop as worker starts it asks no queue and brings nothing, whatever the queue of the other thread holds.
steal_two_threads :
    (fuel from : ℕ) (s : System)
    → s.num_threads ≡ 2
    → steal (suc fuel) (dec32 s.num_threads) from nullptr s ≡ ok (s, nullptr, from, [])
unfolding steal
steal_two_threads fuel from s two =
    let count : dec32 (dec32 s.num_threads) ≡ 0 = omega arith in rw count
