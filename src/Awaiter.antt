-- ===== src/Awaiter.antt =====
-- src/util/traits.h: which types are awaiters.
use bop.Common.{Bool, true, false, ◌&&◌, Option, none, some}

-- A type, as these templates see it; `other` with whether it converts to bool.
pub data Cpp : Type 0 where
  void bool pmr_vector coroutine_handle : Cpp
  other : (to_bool : Bool) → Cpp

is_pmr_vector : Cpp → Bool
is_pmr_vector pmr_vector = true
is_pmr_vector _ = false

is_coroutine_handle : Cpp → Bool
is_coroutine_handle coroutine_handle = true
is_coroutine_handle _ = false

unfoldable pub is_valid_await_suspend_return_value : Cpp → Bool
is_valid_await_suspend_return_value void = true
is_valid_await_suspend_return_value bool = true
is_valid_await_suspend_return_value coroutine_handle = true
is_valid_await_suspend_return_value _ = false

-- A coroutine_handle converts to bool only explicitly.
abbrev convertible_to_bool : Cpp → Bool
convertible_to_bool bool = true
convertible_to_bool (other to_bool) = to_bool
convertible_to_bool _ = false

abbrev is_void : Cpp → Bool
is_void void = true
is_void _ = false

-- The types of the member functions of a class; `none` for one that it does not have.
pub record AwaiterMembers : Type 0 where
  pub await_ready : Option Cpp
  pub await_resume : Option Cpp
  pub await_suspend : Option Cpp

abbrev returns : (Cpp → Bool) → Option Cpp → Bool
returns test none = false
returns test (some type) = test type

unfoldable pub c_is_awaiter : AwaiterMembers → Bool
unfolding is_valid_await_suspend_return_value
c_is_awaiter obj =
    returns convertible_to_bool obj.await_ready
    && returns is_void obj.await_resume
    && returns is_valid_await_suspend_return_value obj.await_suspend
