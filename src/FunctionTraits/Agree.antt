-- ===== src/FunctionTraits/Agree.antt =====
-- The traits of a callable (src/util/function_traits.h) against its signature.
use bop.Common.{
  ℕ, ◌≡◌, Bool, true, false, not, ◌&&◌, Option, none, some, List, [], ◌∷◌, map, if◌then◌else◌,
  length,
}
use bop.FunctionTraits.{
  Signature, MemberFunction, mutable_member, const_member, noexcept_member, Form, global_function,
  member_function, functor, not_callable, Traits, tuple_element, pointer_traits, function_traits,
  function_arg, lift_result, lift_arguments,
}

module _ {C : Type 0} where
  abbrev signature_of_member : MemberFunction C → Option (Signature C)
  signature_of_member (mutable_member s) = some s
  signature_of_member (const_member s) = some s
  signature_of_member (noexcept_member s) = none

  -- How the callable is called: a functor by its only operator().
  abbrev signature_of : Form C → Option (Signature C)
  signature_of (global_function s) = some s
  signature_of (member_function m) = signature_of_member m
  signature_of (functor []) = none
  signature_of (functor (m ∷ [])) = signature_of_member m
  signature_of (functor (m ∷ n ∷ ms)) = none
  signature_of not_callable = none

  abbrev has_no_args : List C → Bool
  has_no_args [] = true
  has_no_args (t ∷ ts) = false

module _ {C : Type 0} (is_void : C → Bool) (empty : C) where
  pub record Agrees (f : Form C) (s : Signature C) : Type 0 where
    pub traits :
        (t : Traits C) × (function_traits is_void empty f ≡ some t)
        × (t.result ≡ s.result)
        × (t.num_args ≡ length s.args)
    pub arg : (i : ℕ) → function_arg is_void empty f i ≡ tuple_element i s.args
    pub lifts_result :
        (lift : C → C)
        → lift_result is_void empty lift f
          ≡ some (if is_void s.result then empty else lift s.result)
    pub lifts_arguments :
        (lift : C → C)
        → lift_arguments is_void empty lift f
          ≡ (if not (is_void s.result) && has_no_args s.args then none else some (map lift s.args))

  abbrev traits_of : Option (Signature C) → Option (Traits C)
  traits_of none = none
  traits_of (some s) = some (pointer_traits is_void empty s.result s.args)
