-- ===== src/JobSystem/Trace.antt =====
-- save_tracelog (src/job/job_system.cpp). The JSON library that it calls is a parameter.
pub mod Json
pub mod Entry
pub mod Saved
use Prim.Native.String.{String}
use bop.Common.{
  ℕ, zero, suc, ◌+◌, ◌-◌, ◌/◌, Bool, Option, none, some, List, [], ◌∷◌, ◌++◌, leb, if◌then◌else◌,
}
use bop.JobSystem.State.{System, JobTrace}
use bop.JobSystem.Trace.Json.{ℤ, pos, negsuc, JsonLibrary}

-- What save_tracelog leaves: the document in the file, or a line on the error output.
pub data Tracelog (Json : Type 0) : Type 0 where
  written : Json → Tracelog Json
  failed_to_open : Tracelog Json

abbrev minus : ℕ → ℤ
minus zero = pos 0
minus (suc n) = negsuc n

-- `duration_cast<microseconds>(later - earlier)`, in ticks of which `per_us` make a microsecond; the cast
-- cuts off towards zero.
abbrev pub microseconds : (per_us later earlier : ℕ) → ℤ
microseconds per_us later earlier =
    if leb earlier later
    then pos ((later - earlier) / per_us)
    else minus ((earlier - later) / per_us)

-- The traces of all threads, in the order of the two loops: so many threads to go, from thread i.
abbrev pub all_traces : (ℕ → List JobTrace) → (threads i : ℕ) → List JobTrace
all_traces traces zero i = []
all_traces traces (suc threads) i = traces i ++ all_traces traces threads (i + 1)

module _ {Json : Type 0} (json : JsonLibrary Json) where
  open json use {null, number, text, store, push_back, at}

  abbrev pub or_null : Option Json → Json
  or_null none = null
  or_null (some value) = value

  -- `js[key]`, which is null where there was none.
  abbrev pub value_at : String → Json → Json
  value_at key js = or_null (at key js)

  unfoldable pub make_entry : (per_us application_start : ℕ) → JobTrace → Json
  make_entry per_us application_start trace =
      let start_time = microseconds per_us trace.start_time application_start in
      let duration = microseconds per_us trace.current_time trace.start_time in
      store "args" null (
        store "name" (text "-") (
          store "ph" (text "X") (
            store "dur" (number duration) (
              store "ts" (number start_time) (
                store "tid" (number (pos trace.thread_index))
                  (store "pid" (number (pos 0)) (store "cat" (text "cat") null)))))))

  -- `js["traceEvents"].push_back(make_entry(thread_evt))`
  abbrev pub add_entry : Json → Json → Json
  add_entry entry js = store "traceEvents" (push_back entry (value_at "traceEvents" js)) js

  abbrev pub add_entries : (per_us application_start : ℕ) → List JobTrace → Json → Json
  add_entries per_us application_start [] js = js
  add_entries per_us application_start (trace ∷ traces) js =
      add_entries per_us application_start traces
        (add_entry (make_entry per_us application_start trace) js)

  -- `good` is what the stream says of the file. m_Traces has the length that the constructor gave it, when
  -- the number of threads has been counted down too.
  unfoldable pub save_tracelog :
      (good : Bool) (per_us application_start : ℕ) → System → Tracelog Json
  save_tracelog good per_us application_start s =
      let js = add_entries per_us application_start (all_traces s.traces s.num_queues 0) null in
      let out = store "displayTimeUnit" (text "ms") js in
      if good then written out else failed_to_open
