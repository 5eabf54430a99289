-- ===== src/Examples/Library.antt =====
-- The theorems on the small parts of src/util, at concrete inputs (describe_object.h, curry.h,
-- manual_lifetime.h, scope_guard.h, function_traits.h, typelist.h, traits.h).
use bop.Common.{
  ℕ, ◌+◌, ◌≡◌, refl, true, false, some, List, [], ◌∷◌, ◌++◌, ◌==◌, if◌then◌else◌, length, arith,
}
use bop.Memory.{Run, ok}
use bop.Job.{Outcome, returned, threw}
use bop.Reflection.{
  Members, integral, described, no_members, member, serialize_integral, print, open_paren,
  close_paren, space, number,
}
use bop.Reflection.RoundTrip.{serialize_each, read_each, read_each-serialize_each}
use bop.Curry.{Invocable, value, curry}
use bop.Curry.Steps.{call_steps, call_steps-curry}
use bop.ScopeGuard.{destroy_guard}
use bop.ScopeGuard.Scopes.{in_scope}
use bop.TypeList.{plain, type_list, head, count_types}
use bop.Awaiter.{Cpp, c_is_awaiter}
use bop.Awaiter
use bop.FunctionTraits.{
  Signature, is_callable, basic_function_arg, function_arg, function_traits, Form, functor,
  const_member,
}

-- struct { uint16_t; struct { uint8_t; }; }
abbrev described_members : Members
described_members =
    member (integral 2 258) (member (described (member (integral 1 7) no_members)) no_members)

serialized : serialize_integral (9 ∷ []) 2 258 ≡ (true, 9 ∷ 2 ∷ 1 ∷ [])
unfolding serialize_integral
serialized = refl

printed :
    print [] (described described_members)
    ≡ open_paren
      ∷ space
      ∷ number 258
      ∷ space
      ∷ open_paren
      ∷ space
      ∷ number 7
      ∷ close_paren
      ∷ close_paren
      ∷ []
unfolding print
printed = refl

read_each-serialize_each_example :
    (bytes : List ℕ) × (serialize_each (9 ∷ []) ((2, 258) ∷ (1, 7) ∷ [])
      ≡ (true, (9 ∷ []) ++ bytes))
    × (read_each (2 ∷ 1 ∷ []) (bytes ++ (5 ∷ [])) ≡ some ((2, 258) ∷ (1, 7) ∷ [], 5 ∷ []))
read_each-serialize_each_example =
    read_each-serialize_each (9 ∷ []) ((2, 258) ∷ (1, 7) ∷ []) (5 ∷ [])
      (omega arith, (omega arith, tt))

-- A callable of three arguments.
abbrev sum : List ℕ → ℕ
sum [] = 0
sum (x ∷ xs) = x + sum xs

abbrev sum_of_three : Invocable ℕ ℕ
sum_of_three = record { accepts = λ xs. length xs == 3; invoke = sum }

call_steps-curry_example :
    call_steps sum_of_three (some (curry sum_of_three (1 ∷ []))) ([] ∷ (2 ∷ 3 ∷ []) ∷ [])
    ≡ some (value 6)
call_steps-curry_example =
    call_steps-curry sum_of_three (1 ∷ []) ([] ∷ (2 ∷ 3 ∷ []) ∷ []) (refl, (refl, tt))

-- A lambda notes its number, but lambda 9 throws.
abbrev notes : ℕ → List ℕ → Run (List ℕ × Outcome)
notes fn s = if fn == 9 then ok (s, threw 1) else ok (fn ∷ s, returned)

-- Lambda 2 runs first and lambda 1 last, after the work has thrown.
guards_run :
    in_scope notes (1 ∷ 2 ∷ []) (λ s. ok (0 ∷ s, threw 4)) [] ≡ ok (1 ∷ 2 ∷ 0 ∷ [], threw 4)
unfolding in_scope destroy_guard
guards_run = refl

abbrev two : Signature ℕ
two = record { result = 2; args = 2 ∷ 3 ∷ [] }

-- Type 0 is void, 1 is Empty, and 2 and 3 are other types. A lambda from 2 and 3 to 2.
abbrev lambda_type : Form ℕ
lambda_type = functor (const_member (record { result = 2; args = 2 ∷ 3 ∷ [] }) ∷ [])

-- An object is constructed, read twice, destroyed, and another one is constructed in its place.

-- An overloaded functor is no callable, and a reference to const keeps its type.
overloaded_functor : is_callable (functor (const_member two ∷ const_member two ∷ [])) ≡ false
unfolding is_callable
overloaded_functor = refl

second_arg : basic_function_arg (λ t. t == 0) 1 (λ t. t) lambda_type 1 ≡ some 3
unfolding function_arg function_traits
second_arg = refl

head_of_list : head {C = ℕ} (type_list (4 ∷ 5 ∷ []) ∷ []) ≡ some (plain 4)
unfolding head
head_of_list = refl

count_lvalue : count_types {C = ℕ} false (type_list (4 ∷ 5 ∷ []) ∷ []) ≡ 1
unfolding count_types
count_lvalue = refl

-- std::suspend_always is an awaiter, and one whose await_resume returns a value is none.
suspend_always :
    c_is_awaiter (record {
      await_ready = some Awaiter.bool;
      await_resume = some Awaiter.void;
      await_suspend = some Awaiter.void;
    })
    ≡ true
unfolding c_is_awaiter
suspend_always = refl
