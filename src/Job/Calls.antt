-- ===== src/Job/Calls.antt =====
-- What callers of a job rely on: no exception leaves it, and a wait ends when the counter is zero.
use bop.Common.{
  ℕ, zero, suc, ◌+◌, ◌<◌, ◌≡◌, ◌≢◌, refl, some, List, [], ◌∷◌, false, arith, ◌==◌, eqb_of_ne, ap,
  ◌∙◌,
}
use bop.Memory.{Run, ok, fault, stuck, aborted, ◌>>=◌, Returns}
use bop.Job.{
  Job, Work, no_work, callable, Outcome, Line, job_exception, bad_function_call, caught, invoke,
  call, wait,
}

-- `wait` with the counter at zero `n` rounds on and not before, and with more fuel than that, yields
-- in those rounds and then returns.
wait_first :
    (reads : ℕ → ℕ) (n i fuel : ℕ)
    → reads (i + n) ≡ 0
    → ((k : ℕ) → k < n → reads (i + k) ≢ 0)
    → n < fuel
    → wait fuel reads i ≡ some (i + n)
unfolding wait
wait_first reads n i zero zeroed before enough = absurd (omega arith)
wait_first reads zero i (suc fuel) zeroed before enough =
    let e : i + 0 ≡ i = omega arith in let z : reads i ≡ 0 = rw e at zeroed in rw (z, e)
wait_first reads (suc n) i (suc fuel) zeroed before enough =
    let e : i + 0 ≡ i = omega arith in
    let e' : i + suc n ≡ (i + 1) + n = omega arith in
    let start : (reads i == 0) ≡ false =
      eqb_of_ne (reads i) 0 (λ z. before 0 (omega arith) (rw e z)) in
    let before' : (k : ℕ) → k < n → reads ((i + 1) + k) ≢ 0 =
      λ k lt z. before (suc k) (omega arith) (ap reads (omega arith) ∙ z) in
    rw (start, e')
      (wait_first reads n (i + 1) fuel (ap reads (omega arith) ∙ zeroed) before' (omega arith))

-- What `operator()` leaves: for an empty callable the line of std::bad_function_call and the same
-- state; else the state in which the callable left off, and the line of its exception, if any.
abbrev Called : {S : Type 0} → (ℕ → S → Run (S × Outcome)) → Work → S → S × List Line → Type 0
Called body no_work s (s', lines) = (s' ≡ s) × (lines ≡ job_exception bad_function_call ∷ [])
Called body (callable f) s (s', lines) =
    (out : Outcome) × (body f s ≡ ok (s', out)) × (lines ≡ caught out)

call_work :
    {S : Type 0} (body : ℕ → S → Run (S × Outcome)) (w : Work) (s : S)
    → ((f : ℕ) → w ≡ callable f → Returns (λ _. Unit {0}) (body f s))
    → Returns (Called body w s) (invoke body w s >>= λ (s', out). ok (s', caught out))
unfolding invoke
call_work {S} body no_work s total = (refl, refl)
call_work {S} body (callable f) s total = go (body f s) refl (total f refl)
  where
    go :
        (r : Run (S × Outcome))
        → body f s ≡ r
        → Returns (λ _. Unit {0}) r
        → Returns (Called body (callable f) s) (r >>= λ (s', out). ok (s', caught out))
    go (ok (s', out)) e t = (out, e, refl)
    go fault e t = absurd t
    go stuck e t = absurd t
    go aborted e t = absurd t

-- If the callable of a job returns or throws, `operator()` returns: the state is the one in which the
-- callable left off, and an exception becomes its line on std::cerr. An empty job writes the line
-- of std::bad_function_call and changes nothing.
call-caught :
    {S : Type 0} (body : ℕ → S → Run (S × Outcome)) (j : Job) (s : S)
    → ((f : ℕ) → j.work ≡ callable f → Returns (λ _. Unit {0}) (body f s))
    → Returns (Called body j.work s) (call body j s)
unfolding call
call-caught body j s total = call_work body j.work s total
