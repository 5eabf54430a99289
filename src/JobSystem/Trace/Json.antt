-- ===== src/JobSystem/Trace/Json.antt =====
-- The JSON library that src/job/job_system.cpp calls: its operations, and what the code relies on.
use Prim.Native.String.{String}
use text.Mathlib.Text.{◌==◌}
use bop.Common.{ℕ, Bool, true, Option, none, some, List, [], ◌∷◌, ◌++◌, ◌≡◌, if◌then◌else◌}

pub data ℤ : Type 0 where
  pos : ℕ → ℤ
  negsuc : ℕ → ℤ

-- `store key value object` is `object[key] = value`, `at` reads it; `elements` are those of an array.
-- A null value becomes an object by the first, and an array by push_back.
pub record JsonLibrary (Json : Type 0) : Type 0 where
  pub null : Json
  pub number : ℤ → Json
  pub text : String → Json
  pub store : (key : String) (value object : Json) → Json
  pub push_back : (value array : Json) → Json
  pub at : (key : String) (object : Json) → Option Json
  pub elements : (array : Json) → List Json
  pub is_object : Json → Bool
  pub is_array : Json → Bool

module _ {Json : Type 0} (json : JsonLibrary Json) where
  open json use {null, store, push_back, at, elements, is_object, is_array}

  -- The documented behaviour; is_object and is_array hold of null also.
  pub record IsLawful : Type 0 where
    pub null-is_object : is_object null ≡ true
    pub null-is_array : is_array null ≡ true
    pub at-null : (key : String) → at key null ≡ none
    pub elements-null : elements null ≡ []
    pub store-is_object :
        (key : String) (value object : Json)
        → is_object object ≡ true
        → is_object (store key value object) ≡ true
    pub at-store :
        (k key : String) (value object : Json)
        → is_object object ≡ true
        → at k (store key value object) ≡ (if k == key then some value else at k object)
    pub push_back-is_array :
        (value array : Json) → is_array array ≡ true → is_array (push_back value array) ≡ true
    pub elements-push_back :
        (value array : Json)
        → is_array array ≡ true
        → elements (push_back value array) ≡ elements array ++ value ∷ []
