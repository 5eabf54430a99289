-- ===== src/ManualLifetime.antt =====
-- src/util/manual_lifetime.h and manual_lifetime.inl: storage for an object that is constructed and
-- destroyed by hand, with its specializations for references and for void.
pub mod Uses
use bop.Common.{◌≡◌, refl, false, Option, none, some, ◌==◌, if◌then◌else◌}
use bop.Memory.{Ptr, nullptr, Run, ok, fault}

-- ManualLifetime<T>: no object, or the object in the union.
abbrev pub ManualLifetime : Type 0 → Type 0
ManualLifetime T = Option T

module _ {T : Type 0} where
  -- Placement new, with the object that the constructor of T makes.
  unfoldable pub construct_object : T → ManualLifetime T → ManualLifetime T
  construct_object object storage = some object

  -- The destructor of T, on no object, is undefined behaviour.
  unfoldable pub destroy_object : ManualLifetime T → Run (ManualLifetime T)
  destroy_object none = fault
  destroy_object (some object) = ok none

  -- The four overloads refer to the same object.
  unfoldable pub get_object : ManualLifetime T → Run T
  get_object none = fault
  get_object (some object) = ok object

-- ManualLifetime<T&>: m_Pointer.
abbrev pub ReferenceLifetime : Type 0
ReferenceLifetime = Ptr

abbrev pub new_reference : ReferenceLifetime
new_reference = nullptr

unfoldable pub construct_reference : Ptr → ReferenceLifetime → ReferenceLifetime
construct_reference value pointer = value

-- Nothing is done, and the pointer stays.
unfoldable pub destroy_reference : ReferenceLifetime → Run ReferenceLifetime
destroy_reference pointer = ok pointer

unfoldable pub get_reference : ReferenceLifetime → Run Ptr
get_reference pointer = if pointer == nullptr then fault else ok pointer

-- ManualLifetime<T&&>: a pointer too.
abbrev pub RvalueLifetime : Type 0
RvalueLifetime = Ptr

abbrev pub new_rvalue : RvalueLifetime
new_rvalue = nullptr

unfoldable pub construct_rvalue : Ptr → RvalueLifetime → RvalueLifetime
construct_rvalue value pointer = value

unfoldable pub destroy_rvalue : RvalueLifetime → Run RvalueLifetime
destroy_rvalue pointer = ok pointer

unfoldable pub get_rvalue : RvalueLifetime → Run Ptr
get_rvalue pointer = if pointer == nullptr then fault else ok pointer

-- ManualLifetime<void>
abbrev pub VoidLifetime : Type 0
VoidLifetime = Unit {0}

abbrev pub construct_void : Unit {0} → VoidLifetime → VoidLifetime
construct_void value storage = tt

abbrev pub destroy_void : VoidLifetime → Run VoidLifetime
destroy_void storage = ok tt

abbrev pub get_void : VoidLifetime → Run (Unit {0})
get_void storage = ok tt
