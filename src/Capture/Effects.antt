-- ===== src/Capture/Effects.antt =====
-- The captures of functions that return nothing or take no arguments (src/main.cpp), with what they do.
use bop.Common.{
  ℕ, ◌≡◌, refl, ap, ◌∙◌, Bool, true, false, Option, none, some, List, [], ◌∷◌, ◌==◌, if◌then◌else◌,
  dec64, Bool-cases, inl, inr,
}
use bop.Memory.{Run, ok, fault, stuck, aborted, ◌>>=◌}
use bop.Capture.{Capture, put_arg, no_args, unwrap, call_capture, set_arg_slots, new_capture}
use bop.Capture.Slots.{set_args_slots}

-- CaptureSlots<void(Args...)>
pub record CaptureVoid (V : Type 0) : Type 0 where
  pub args : List (Option V)
  pub remaining_args : ℕ

-- CaptureSlots<T()>
pub record CaptureResult (T : Type 0) : Type 0 where
  pub result : Option T

abbrev pub new_capture_void : {V : Type 0} → ℕ → CaptureVoid V
new_capture_void n = record { args = no_args n; remaining_args = n }

abbrev pub new_capture_result : {T : Type 0} → CaptureResult T
new_capture_result = record { result = none }

abbrev pub set_arg_void : {V : Type 0} → ℕ → V → CaptureVoid V → CaptureVoid V
set_arg_void i v c = record { args = put_arg c.args i v; remaining_args = dec64 c.remaining_args }

abbrev set_args_void : {V : Type 0} → List (ℕ × V) → CaptureVoid V → CaptureVoid V
set_args_void [] c = c
set_args_void ((i, v) ∷ sets) c = set_args_void sets (set_arg_void i v c)

-- `S` is what the functions can change.
module _ {S V : Type 0} where
  unfoldable pub call_void : (List V → S → S) → CaptureVoid V → S → Run (S × Bool)
  unfolding unwrap
  call_void callback c s =
      if c.remaining_args == 0
      then (do vs ← unwrap c.args; ok (callback vs s, true))
      else ok (s, false)

module _ {S T : Type 0} where
  abbrev pub call_result : (S → S × T) → CaptureResult T → S → CaptureResult T × S × Bool
  call_result callback c s =
      let (s1, value) = callback s in (record { result = some value }, s1, true)

-- CaptureSlots<void()>, which has no members but the callback.
abbrev pub call_nothing : {S : Type 0} → (S → S) → S → S × Bool
call_nothing callback s = (callback s, true)

module _ {S V : Type 0} where
  -- The capture of a function that returns `S`, with the same arguments.
  abbrev as_capture : CaptureVoid V → Capture V S
  as_capture c = record { result = none; args = c.args; remaining_args = c.remaining_args }

  abbrev state_after : S → Capture V S × Bool → S × Bool
  state_after s (c, called) = (elim c.result [ none ↦ s | some s1 ↦ s1 ], called)

  set_args_void-as_capture :
      (sets : List (ℕ × V)) (c : CaptureVoid V)
      → as_capture (set_args_void sets c) ≡ set_args_slots sets (as_capture c)
  unfolding set_arg_slots
  set_args_void-as_capture [] c = refl
  set_args_void-as_capture ((i, v) ∷ sets) c = set_args_void-as_capture sets (set_arg_void i v c)

  call_void_lem :
      (callback : List V → S → S) (c : CaptureVoid V) (s : S)
      → call_void callback c s
        ≡ (call_capture (λ vs. callback vs s) (as_capture c) >>= λ r. ok (state_after s r))
  unfolding call_void call_capture
  call_void_lem callback c s = elim (Bool-cases (c.remaining_args == 0)) [
    | inl full ↦ rw full (unwrapped (unwrap c.args))
    | inr open_args ↦ rw open_args refl
  ]
    where
      unwrapped :
          (r : Run (List V))
          → (r >>= λ vs. ok (callback vs s, true)) ≡ (
              (r >>= λ vs. ok (record (as_capture c) { result = some (callback vs s) }, true))
              >>= λ x. ok (state_after s x))
      unwrapped (ok vs) = refl
      unwrapped fault = refl
      unwrapped stuck = refl
      unwrapped aborted = refl

  -- The specialization for functions that return nothing acts as the one for functions with a result,
  -- after any history of settings: its function changes the state exactly when the other one leaves a
  -- result, and then to that result.
  call_void-call_capture :
      (callback : List V → S → S) (n : ℕ) (sets : List (ℕ × V)) (s : S)
      → call_void callback (set_args_void sets (new_capture_void n)) s ≡ (
          call_capture (λ vs. callback vs s) (set_args_slots sets (new_capture n)) >>= λ r.
          ok (state_after s r))
  call_void-call_capture callback n sets s =
      call_void_lem callback (set_args_void sets (new_capture_void n)) s
      ∙ ap (λ c. call_capture (λ vs. callback vs s) c >>= λ r. ok (state_after s r))
          (set_args_void-as_capture sets (new_capture_void n))
