-- ===== src/Application.antt =====
-- The demonstration in src/main.cpp: the functions that it captures, and what it does before it waits.
pub mod Demo
use bop.Common.{
  ℕ, ◌+◌, ◌*◌, Bool, true, false, Option, none, some, List, [], ◌∷◌, ◌++◌, if◌then◌else◌,
}
use bop.Memory.{Ptr, nullptr, Run, ok, fault, ◌>>=◌}
use bop.Capture.{Capture, new_capture, set_arg_slots, set_arg, call_capture}
use bop.Capture.Effects.{
  CaptureVoid, CaptureResult, new_capture_void, new_capture_result, set_arg_void, call_void,
  call_result, call_nothing,
}

-- A line of std::cout.
pub data Output : Type 0 where
  slots_a slots_b result : ℕ → Output
  ccc : (a b : ℕ) → Output
  ddd not_all_set variant_g g_is_working : Output

abbrev Stdout : Type 0
Stdout = List Output

-- Functions of two integers, called with as many.
abbrev binary : {R : Type 0} → (ℕ → ℕ → R) → R → List ℕ → R
binary fn other (a ∷ b ∷ []) = fn a b
binary fn other _ = other

abbrev testing_a : ℕ → ℕ → ℕ
testing_a a b = a * b

abbrev testing_b : ℕ
testing_b = 42

abbrev testing_c : Stdout → ℕ → ℕ → Stdout
testing_c out a b = out ++ (ccc a b ∷ [])

abbrev testing_d : Stdout → Stdout
testing_d out = out ++ (ddd ∷ [])

-- A class with four member functions.
pub record Foo : Type 0 where
  pub foo_value : ℕ

abbrev test_a : Foo → ℕ → ℕ → ℕ
test_a foo a b = foo.foo_value + a + b

abbrev test_b : Foo → ℕ
test_b foo = foo.foo_value

abbrev test_c : ℕ → ℕ → Foo → Foo
test_c a b foo = record { foo_value = a + b }

abbrev test_d : Foo → Foo
test_d foo = record { foo_value = 123 }

-- `if (slots.call()) std::cout << ... << *slots.m_Result`
abbrev show_result : (ℕ → Output) → Stdout → Capture ℕ ℕ × Bool → Run Stdout
show_result line out (c, false) = ok out
show_result line out (c, true) = elim c.result [ none ↦ fault | some n ↦ ok (out ++ (line n ∷ [])) ]

abbrev unless_called : Stdout → Bool → Stdout
unless_called out called = if called then out else out ++ (not_all_set ∷ [])

-- The captures of main, in its order.
unfoldable pub main_captures : Run Stdout
unfolding call_capture call_void set_arg_slots set_arg
main_captures = do
  let a : Capture ℕ ℕ = set_arg_slots 1 6 (set_arg_slots 0 5 (new_capture 2))
  called_a ← call_capture (binary testing_a 0) a
  out_a ← show_result slots_a [] called_a
  let b : CaptureResult ℕ × Stdout × Bool =
      call_result (λ (out : Stdout). (out, testing_b)) new_capture_result out_a
  out_b ←
      show_result slots_b b.1 (record { result = b.0.result; args = []; remaining_args = 0 }, b.2)
  let c : CaptureVoid ℕ = set_arg_void 1 13 (set_arg_void 0 12 (new_capture_void 2))
  (out_c, called_c) ← call_void (λ vs out. binary (testing_c out) out vs) c out_b
  let d : Stdout × Bool = call_nothing testing_d out_c
  let f1 : Capture ℕ ℕ = set_arg 0 5 (new_capture 2)
  (f2, called_1) ← call_capture (binary testing_a 0) f1
  let out_1 : Stdout = unless_called d.0 called_1
  (f3, called_2) ← call_capture (binary testing_a 0) (set_arg 0 9 f2)
  let out_2 : Stdout = unless_called out_1 called_2
  called_3 ← call_capture (binary testing_a 0) (set_arg 1 11 f3)
  out_3 ← show_result result out_2 called_3
  let g : Stdout × Bool = call_nothing (λ (out : Stdout). out ++ (variant_g ∷ [])) out_3
  ok (if g.1 then g.0 ++ (g_is_working ∷ []) else g.0)
