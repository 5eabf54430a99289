-- ===== src/JobSystem/Trace/Entry.antt =====
-- What is in the entry of a trace that save_tracelog makes (src/job/job_system.cpp).
use Prim.Native.String.{String}
use text.Mathlib.Text.{◌==◌}
use bop.Common.{
  ℕ, ◌≡◌, refl, ap, ◌∙◌, Bool, true, false, ◌||◌, Option, none, some, List, [], ◌∷◌, is_some,
  if◌then◌else◌,
}
use bop.JobSystem.State.{JobTrace}
use bop.JobSystem.Trace.Json.{pos, JsonLibrary, IsLawful}
use bop.JobSystem.Trace.{microseconds, make_entry}

abbrev pub is_one_of : String → List String → Bool
is_one_of k [] = false
is_one_of k (key ∷ rest) = k == key || is_one_of k rest

is_some-if {ℓ} :
    {A : Type ℓ} (b c : Bool) (a : A) (o : Option A)
    → is_some o ≡ c
    → is_some (if b then some a else o) ≡ (b || c)
is_some-if true c a o e = refl
is_some-if false c a o e = e

module _ {Json : Type 0} (json : JsonLibrary Json) where
  open json use {null, number, text, store, push_back, at, elements, is_object, is_array}

  store_all : List (String × Json) → Json
  store_all [] = null
  store_all ((key, value) ∷ rest) = store key value (store_all rest)

  find : String → List (String × Json) → Option Json
  find k [] = none
  find k ((key, value) ∷ rest) = if k == key then some value else find k rest

  keys_of : List (String × Json) → List String
  keys_of [] = []
  keys_of ((key, value) ∷ rest) = key ∷ keys_of rest

  is_some-find :
      (k : String) (l : List (String × Json)) → is_some (find k l) ≡ is_one_of k (keys_of l)
  unfolding find keys_of
  is_some-find k [] = refl
  is_some-find k ((key, value) ∷ rest) =
      is_some-if (k == key) _ value (find k rest) (is_some-find k rest)

  -- What a reader of the entry of a trace sees.
  pub record IsEntry (per_us application_start : ℕ) (trace : JobTrace) (entry : Json) : Type 0 where
    pub cat : at "cat" entry ≡ some (text "cat")
    pub pid : at "pid" entry ≡ some (number (pos 0))
    pub tid : at "tid" entry ≡ some (number (pos trace.thread_index))
    pub ts : at "ts" entry ≡ some (number (microseconds per_us trace.start_time application_start))
    pub dur :
        at "dur" entry ≡ some (number (microseconds per_us trace.current_time trace.start_time))
    pub ph : at "ph" entry ≡ some (text "X")
    pub name : at "name" entry ≡ some (text "-")
    pub args : at "args" entry ≡ some null
    pub keys :
        (k : String)
        → is_some (at k entry)
          ≡ is_one_of k ("args" ∷ "name" ∷ "ph" ∷ "dur" ∷ "ts" ∷ "tid" ∷ "pid" ∷ "cat" ∷ [])

  module _ (laws : IsLawful json) where
    open laws use {
      null-is_object, null-is_array, at-null, elements-null, store-is_object, at-store,
      push_back-is_array, elements-push_back,
    }

    store_all-is_object : (l : List (String × Json)) → is_object (store_all l) ≡ true
    unfolding store_all
    store_all-is_object [] = null-is_object
    store_all-is_object ((key, value) ∷ rest) =
        store-is_object key value (store_all rest) (store_all-is_object rest)

    at-store_all : (k : String) (l : List (String × Json)) → at k (store_all l) ≡ find k l
    unfolding store_all find
    at-store_all k [] = at-null k
    at-store_all k ((key, value) ∷ rest) =
        at-store k key value (store_all rest) (store_all-is_object rest)
        ∙ ap (λ o. if k == key then some value else o) (at-store_all k rest)

    pub make_entry-IsEntry :
        (per_us application_start : ℕ) (trace : JobTrace)
        → IsEntry per_us application_start trace (make_entry json per_us application_start trace)
    unfolding make_entry store_all find keys_of
    make_entry-IsEntry per_us application_start trace =
        let start_time = microseconds per_us trace.start_time application_start in
        let duration = microseconds per_us trace.current_time trace.start_time in
        let l : List (String × Json) =
          ("args", null)
          ∷ ("name", text "-")
          ∷ ("ph", text "X")
          ∷ ("dur", number duration)
          ∷ ("ts", number start_time)
          ∷ ("tid", number (pos trace.thread_index))
          ∷ ("pid", number (pos 0))
          ∷ ("cat", text "cat")
          ∷ [] in
        record {
          cat = at-store_all "cat" l;
          pid = at-store_all "pid" l;
          tid = at-store_all "tid" l;
          ts = at-store_all "ts" l;
          dur = at-store_all "dur" l;
          ph = at-store_all "ph" l;
          name = at-store_all "name" l;
          args = at-store_all "args" l;
          keys = λ k. ap is_some (at-store_all k l) ∙ is_some-find k l;
        }
