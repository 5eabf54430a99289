-- ===== src/Reflection.antt =====
-- src/util/describe_object.h: objects whose members of interest are listed by a TypeDescriptor and written
-- to a stream, and integers that are serialized into a buffer.
pub mod RoundTrip
use bop.Common.{ℕ, zero, suc, ◌+◌, ◌%◌, ◌/◌, Bool, true, List, [], ◌∷◌, ◌++◌, if◌then◌else◌, length}

-- An object that can be printed: an integer of `num_bytes` bytes, as the number that its bits are,
-- or a Described object, with the members that its TypeDescriptor lists.
mutual
  pub data Object : Type 0 where
    integral : (num_bytes value : ℕ) → Object
    described : Members → Object

  pub data Members : Type 0 where
    no_members : Members
    member : Object → Members → Members

-- The bytes of an integer in memory, the lowest one first.
abbrev pub object_bytes : ℕ → ℕ → List ℕ
object_bytes zero value = []
object_bytes (suc k) value = value % 256 ∷ object_bytes k (value / 256)

-- `resize`: bytes are cut off or zeros are added at the end.
abbrev pub resize : ℕ → List ℕ → List ℕ
resize zero buffer = []
resize (suc n) [] = 0 ∷ resize n []
resize (suc n) (b ∷ buffer) = b ∷ resize n buffer

-- std::memcpy of `bytes` to an offset in the buffer, which has room for them.
abbrev pub memcpy : ℕ → List ℕ → List ℕ → List ℕ
memcpy offset [] buffer = buffer
memcpy offset (c ∷ bytes) [] = []
memcpy zero (c ∷ bytes) (b ∷ buffer) = c ∷ memcpy zero bytes buffer
memcpy (suc offset) bytes (b ∷ buffer) = b ∷ memcpy offset bytes buffer

-- serialize_impl of an integer.
unfoldable pub serialize_integral : List ℕ → (num_bytes value : ℕ) → Bool × List ℕ
serialize_integral buffer num_bytes value =
    let old_size = length buffer in
    let resized = resize (old_size + num_bytes) buffer in
    (true, memcpy old_size (object_bytes num_bytes value) resized)

-- What is written to a stream, piece by piece.
pub data Piece : Type 0 where
  open_paren close_paren space : Piece
  number : ℕ → Piece

-- `operator<<`
unfoldable mutual
  pub print : List Piece → Object → List Piece
  print os (integral num_bytes value) = os ++ (number value ∷ [])
  print os (described members) =
      print_members (os ++ (open_paren ∷ [])) members ++ (close_paren ∷ [])

  pub print_members : List Piece → Members → List Piece
  print_members os no_members = os
  print_members os (member object members) =
      print_members (print (os ++ (space ∷ [])) object) members
