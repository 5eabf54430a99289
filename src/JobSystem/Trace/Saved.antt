-- ===== src/JobSystem/Trace/Saved.antt =====
-- What is in the document that save_tracelog writes (src/job/job_system.cpp).
use Prim.Native.String.{String}
use text.Mathlib.Text.{◌==◌}
use bop.Common.{ℕ, ◌≡◌, Bool, true, false, ◌||◌, none, some, List, map, length, ltb, is_some}
use bop.JobSystem.State.{System, JobTrace}
use bop.JobSystem.Trace.Json.{JsonLibrary, IsLawful}
use bop.JobSystem.Trace.Entry.{IsEntry}
use bop.JobSystem.Trace.{Tracelog, written, failed_to_open, all_traces, value_at, make_entry}

module _ {Json : Type 0} (json : JsonLibrary Json) where
  open json use {null, text, store, push_back, at, elements, is_object, is_array}

  -- What a reader of the file sees. There is no key traceEvents if there is no trace.
  pub record IsLog (per_us application_start : ℕ) (s : System) (js : Json) : Type 0 where
    pub time_unit : at "displayTimeUnit" js ≡ some (text "ms")
    pub key : is_some (at "traceEvents" js) ≡ ltb 0 (length (all_traces s.traces s.num_queues 0))
    pub events :
        elements (value_at json "traceEvents" js)
        ≡ map (make_entry json per_us application_start) (all_traces s.traces s.num_queues 0)
    pub entries :
        (trace : JobTrace)
        → IsEntry json per_us application_start trace
            (make_entry json per_us application_start trace)
    pub alone :
        (k : String) → (k == "displayTimeUnit" || k == "traceEvents") ≡ false → at k js ≡ none

  pub Logged : (good : Bool) (per_us application_start : ℕ) → System → Tracelog Json → Type 0
  Logged true per_us application_start s (written js) = IsLog per_us application_start s js
  Logged false per_us application_start s failed_to_open = Unit {0}
  Logged _ _ _ _ _ = ⊥

  module _ (laws : IsLawful json) where
    open laws use {
      null-is_object, null-is_array, at-null, elements-null, store-is_object, at-store,
      push_back-is_array, elements-push_back,
    }

    -- A document into which these entries have gone.
    record IsDocument (entries : List Json) (js : Json) : Type 0 where
      object : is_object js ≡ true
      array : is_array (value_at json "traceEvents" js) ≡ true
      events : elements (value_at json "traceEvents" js) ≡ entries
      key : is_some (at "traceEvents" js) ≡ ltb 0 (length entries)
      alone : (k : String) → (k == "traceEvents") ≡ false → at k js ≡ none
