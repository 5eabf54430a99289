-- ===== src/Reflection/RoundTrip.antt =====
-- Integers that are serialized one after the other into a buffer (src/util/describe_object.h) can be read
-- back from its bytes, if their types are known.
use bop.Common.{
  ℕ, zero, suc, ◌+◌, ◌*◌, ◌/◌, ◌^◌, ◌<◌, ◌≡◌, refl, Bool, ◌&&◌, sym, ap, ◌∙◌, true, Option, none,
  some, List, [], ◌∷◌, ◌++◌, length, append-nil, append_assoc, arith, and_then,
}
use bop.Reflection.{object_bytes, resize, memcpy, serialize_integral}

abbrev add_byte : ℕ → Option (ℕ × List ℕ) → Option (ℕ × List ℕ)
add_byte b none = none
add_byte b (some (v, rest)) = some (b + 256 * v, rest)

-- The number that the next `n` bytes stand for, and the bytes after them.
abbrev read_number : ℕ → List ℕ → Option (ℕ × List ℕ)
read_number zero bytes = some (0, bytes)
read_number (suc n) [] = none
read_number (suc n) (b ∷ bytes) = add_byte b (read_number n bytes)

-- Integers, each with the number of bytes of its type.
abbrev pub Integers : Type 0
Integers = List (ℕ × ℕ)

abbrev pub sizes : Integers → List ℕ
sizes [] = []
sizes ((n, v) ∷ xs) = n ∷ sizes xs

abbrev pub InRange : Integers → Type 0
InRange [] = Unit
InRange ((n, v) ∷ xs) = (v < 256 ^ n) × InRange xs

-- The calls of serialize_impl for each of them, and whether all have written.
abbrev pub serialize_each : List ℕ → Integers → Bool × List ℕ
serialize_each buffer [] = (true, buffer)
serialize_each buffer ((n, v) ∷ xs) =
    let r = serialize_integral buffer n v in
    let rest = serialize_each r.1 xs in (r.0 && rest.0, rest.1)

-- The integers that a buffer stands for, and the bytes after them.
abbrev pub read_each : List ℕ → List ℕ → Option (Integers × List ℕ)
read_each [] bytes = some ([], bytes)
read_each (n ∷ ns) bytes =
    and_then (read_number n bytes)
      λ (v, after). and_then (read_each ns after) λ (xs, rest). some ((n, v) ∷ xs, rest)

abbrev encoding : Integers → List ℕ
encoding [] = []
encoding ((n, v) ∷ xs) = object_bytes n v ++ encoding xs

length-object_bytes : (n v : ℕ) → length (object_bytes n v) ≡ n
length-object_bytes zero v = refl
length-object_bytes (suc n) v = ap suc (length-object_bytes n (v / 256))

suc_add : (m n : ℕ) → suc m + n ≡ suc (m + n)
suc_add m n = omega arith

fill : (bytes : List ℕ) → memcpy 0 bytes (resize (length bytes) []) ≡ bytes
fill [] = refl
fill (c ∷ bytes) = ap (λ l. c ∷ l) (fill bytes)

-- The new bytes stand behind those that were in the buffer.
memcpy-resize :
    (buffer bytes : List ℕ)
    → memcpy (length buffer) bytes (resize (length buffer + length bytes) buffer) ≡ buffer ++ bytes
memcpy-resize [] bytes = rw (add_zero (length bytes)) (fill bytes)
  where
    add_zero : (n : ℕ) → 0 + n ≡ n
    add_zero n = omega arith
memcpy-resize (b ∷ buffer) [] =
    rw (suc_add (length buffer) 0) (ap (λ l. b ∷ l) (memcpy-resize buffer []))
memcpy-resize (b ∷ buffer) (c ∷ bytes) =
    rw (suc_add (length buffer) (length (c ∷ bytes)))
      (ap (λ l. b ∷ l) (memcpy-resize buffer (c ∷ bytes)))

serialize_integral_lem :
    (buffer : List ℕ) (n v : ℕ) → serialize_integral buffer n v ≡ (true, buffer ++ object_bytes n v)
unfolding serialize_integral
serialize_integral_lem buffer n v =
    ap (λ l. (true, l))
      (ap (λ k. memcpy (length buffer) (object_bytes n v) (resize (length buffer + k) buffer))
          (sym (length-object_bytes n v))
        ∙ memcpy-resize buffer (object_bytes n v))

read_number-object_bytes :
    (n v : ℕ) (rest : List ℕ)
    → v < 256 ^ n
    → read_number n (object_bytes n v ++ rest) ≡ some (v, rest)
read_number-object_bytes zero v rest lt = ap (λ w. some (w, rest)) (omega (arith, lt))
read_number-object_bytes (suc n) v rest lt =
    rw (read_number-object_bytes n (v / 256) rest smaller) (ap (λ w. some (w, rest)) (omega arith))
  where
    smaller : v / 256 < 256 ^ n
    smaller = omega (arith, lt)

serialize_each-encoding :
    (buffer : List ℕ) (xs : Integers) → serialize_each buffer xs ≡ (true, buffer ++ encoding xs)
serialize_each-encoding buffer [] = ap (λ l. (true, l)) (sym (append-nil buffer))
serialize_each-encoding buffer ((n, v) ∷ xs) = rw (serialize_integral_lem buffer n v) (
    ap (λ r. (r.0, r.1)) (serialize_each-encoding (buffer ++ object_bytes n v) xs)
    ∙ ap (λ l. (true, l)) (append_assoc buffer (object_bytes n v) (encoding xs)))

read_each-encoding :
    (xs : Integers) (rest : List ℕ)
    → InRange xs
    → read_each (sizes xs) (encoding xs ++ rest) ≡ some (xs, rest)
read_each-encoding [] rest fits = refl
read_each-encoding ((n, v) ∷ xs) rest (here, later) =
    rw
      (
        append_assoc (object_bytes n v) (encoding xs) rest,
        read_number-object_bytes n v (encoding xs ++ rest) here,
        read_each-encoding xs rest later,
      )
      refl

-- Integers in the range of their types are serialized one after the other, whatever the buffer holds. Each call
-- writes; what was in the buffer stays, and the bytes that are added, read by the sizes of the types, give back the
-- integers and leave whatever follows them.
pub read_each-serialize_each :
    (buffer : List ℕ) (xs : Integers) (rest : List ℕ)
    → InRange xs
    → (bytes : List ℕ) × (serialize_each buffer xs ≡ (true, buffer ++ bytes))
      × (read_each (sizes xs) (bytes ++ rest) ≡ some (xs, rest))
read_each-serialize_each buffer xs rest fits =
    (encoding xs, serialize_each-encoding buffer xs, read_each-encoding xs rest fits)
