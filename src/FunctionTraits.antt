-- ===== src/FunctionTraits.antt =====
-- src/util/function_traits.h: what the templates say of the type of a callable. The other types are a
-- parameter, and so are the templates of the standard library.
pub mod Agree
use bop.Common.{
  ℕ, zero, suc, Bool, true, false, Option, none, some, List, [], ◌∷◌, map, if◌then◌else◌, length,
  ltb, and_then,
}

-- R(Args...), without noexcept.
pub record Signature (C : Type 0) : Type 0 where
  pub result : C
  pub args : List C

-- A type, as the specializations see it. A function pointer or a member function may be noexcept, in
-- its type: no specialization matches then. A functor has some number of operator(), each of them
-- a member function.
pub data MemberFunction (C : Type 0) : Type 0 where
  mutable_member const_member noexcept_member : Signature C → MemberFunction C

pub data Form (C : Type 0) : Type 0 where
  global_function : Signature C → Form C
  member_function : MemberFunction C → Form C
  functor : List (MemberFunction C) → Form C
  not_callable : Form C

-- `&T::operator()` names one member function: it is neither overloaded nor missing.
abbrev pub call_operator : {C : Type 0} → List (MemberFunction C) → Option (MemberFunction C)
call_operator [] = none
call_operator (m ∷ []) = some m
call_operator (m ∷ n ∷ ms) = none

-- What the members of FunctionTraits are; `none` for one that the specialization does not have.
pub record Traits (C : Type 0) : Type 0 where
  pub result : C
  pub arguments : Option (List C)
  pub num_args : ℕ
  pub lift_result : (C → C) → C
  pub lift_arguments : Option ((C → C) → List C)

-- std::tuple_element_t; `none`: it does not compile.
abbrev pub tuple_element : {C : Type 0} → ℕ → List C → Option C
tuple_element i [] = none
tuple_element zero (t ∷ ts) = some t
tuple_element (suc i) (t ∷ ts) = tuple_element i ts

module _ {C : Type 0} where
  is_callable_member : MemberFunction C → Bool
  is_callable_member (mutable_member s) = true
  is_callable_member (const_member s) = true
  is_callable_member (noexcept_member s) = false

  -- IsCallable: of a functor only that &T::operator() is an expression.
  unfoldable pub is_callable : Form C → Bool
  unfolding is_callable_member
  is_callable (global_function s) = true
  is_callable (member_function m) = is_callable_member m
  is_callable (functor ms) = elim (call_operator ms) [ none ↦ false | some m ↦ true ]
  is_callable not_callable = false

module _ {C : Type 0} (is_void : C → Bool) (empty : C) where
  -- R(*)(): neither Arguments nor LiftArguments.
  abbrev pub zero_argument_traits : C → Traits C
  zero_argument_traits r = record {
    result = r;
    arguments = none;
    num_args = 0;
    lift_result = λ lift. lift r;
    lift_arguments = none;
  }

  abbrev pub global_traits : Signature C → Traits C
  global_traits s = record {
    result = s.result;
    arguments = some s.args;
    num_args = length s.args;
    lift_result = λ lift. lift s.result;
    lift_arguments = some (λ lift. map lift s.args);
  }

  -- void(*)(Args...): Empty in place of a lifted void.
  abbrev pub void_traits : Signature C → Traits C
  void_traits s = record {
    result = s.result;
    arguments = some s.args;
    num_args = length s.args;
    lift_result = λ lift. empty;
    lift_arguments = some (λ lift. map lift s.args);
  }

  abbrev pub void_zero_argument_traits : C → Traits C
  void_zero_argument_traits r = record {
    result = r;
    arguments = some [];
    num_args = 0;
    lift_result = λ lift. empty;
    lift_arguments = some (λ lift. []);
  }

  -- The specializations for a function pointer, the more specialized ones first.
  abbrev pub pointer_traits : C → List C → Traits C
  pointer_traits r [] = if is_void r then void_zero_argument_traits r else zero_argument_traits r
  pointer_traits r (t ∷ ts) =
      if is_void r
      then void_traits (record { result = r; args = t ∷ ts })
      else global_traits (record { result = r; args = t ∷ ts })

  abbrev pub member_traits : MemberFunction C → Option (Traits C)
  member_traits (mutable_member s) = some (pointer_traits s.result s.args)
  member_traits (const_member s) = some (pointer_traits s.result s.args)
  member_traits (noexcept_member s) = none

  abbrev functor_traits : Option (MemberFunction C) → Option (Traits C)
  functor_traits none = none
  functor_traits (some m) = member_traits m

  -- FunctionTraits<T>; `none`: there is no such type.
  unfoldable pub function_traits : Form C → Option (Traits C)
  function_traits (global_function s) = some (pointer_traits s.result s.args)
  function_traits (member_function m) = member_traits m
  function_traits (functor ms) = functor_traits (call_operator ms)
  function_traits not_callable = none

  abbrev arg_of : ℕ → Option (List C) → Option C
  arg_of i none = none
  arg_of i (some ts) = tuple_element i ts

  -- FunctionArg<T, Idx>: Arg requires k_NumArgs > Idx.
  unfoldable pub function_arg : Form C → ℕ → Option C
  unfolding function_traits
  function_arg f i =
      and_then (function_traits f) (λ t. if ltb i t.num_args then arg_of i t.arguments else none)

  -- BasicFunctionArg
  abbrev pub basic_function_arg : (C → C) → Form C → ℕ → Option C
  basic_function_arg remove_cv f i = and_then (function_arg f i) (λ t. some (remove_cv t))

  -- LiftResult
  abbrev pub lift_result : (C → C) → Form C → Option C
  lift_result lift f = and_then (function_traits f) (λ t. some (t.lift_result lift))

  abbrev lifted : (C → C) → Option ((C → C) → List C) → Option (List C)
  lifted lift none = none
  lifted lift (some l) = some (l lift)

  -- LiftArguments
  abbrev pub lift_arguments : (C → C) → Form C → Option (List C)
  lift_arguments lift f = and_then (function_traits f) (λ t. lifted lift t.lift_arguments)
