-- ===== src/Examples/Traces.antt =====
-- save_tracelog with a small JSON library, at concrete inputs (src/job/job_system.cpp).
use Prim.Native.String.{String}
use text.Mathlib.Text.{◌==◌}
use bop.Common.{
  ℕ, ◌≡◌, refl, Bool, true, false, Option, none, some, List, [], ◌∷◌, length, if◌then◌else◌,
}
use bop.JobSystem.State.{System, JobTrace}
use bop.JobSystem.Trace.Json.{ℤ, JsonLibrary}
use bop.JobSystem.Trace.{all_traces}
use bop.Examples.{pool}

mutual
  data Value : Type 0 where
    null : Value
    number : ℤ → Value
    string : String → Value
    array : Items → Value
    object : Fields → Value

  data Items : Type 0 where
    empty : Items
    item : Value → Items → Items

  data Fields : Type 0 where
    end : Fields
    member : String → Value → Fields → Fields

find : String → Fields → Option Value
find k end = none
find k (member key value rest) = if k == key then some value else find k rest

to_list : Items → List Value
to_list empty = []
to_list (item v vs) = v ∷ to_list vs

add_last : Value → Items → Items
add_last v empty = item v empty
add_last v (item w ws) = item w (add_last v ws)

store : String → Value → Value → Value
store key value null = object (member key value end)
store key value (object m) = object (member key value m)
store key value _ = null

push_back : Value → Value → Value
push_back value null = array (item value empty)
push_back value (array vs) = array (add_last value vs)
push_back value _ = null

at : String → Value → Option Value
at key (object m) = find key m
at key _ = none

elements : Value → List Value
elements (array vs) = to_list vs
elements _ = []

is_object : Value → Bool
is_object null = true
is_object (object m) = true
is_object _ = false

is_array : Value → Bool
is_array null = true
is_array (array vs) = true
is_array _ = false

abbrev values : JsonLibrary Value
values = record {
  null = null;
  number = number;
  text = string;
  store = store;
  push_back = push_back;
  at = at;
  elements = elements;
  is_object = is_object;
  is_array = is_array;
}

abbrev trace : ℕ → JobTrace
trace i = record { start_time = 2500; current_time = 7900; thread_index = i }

-- Each thread of the pool has executed one job, and has left.
abbrev traced : System
traced = record pool { env = record (pool.env) { num_threads = 0; traces = λ i. trace i ∷ [] } }

traced_twice : length (all_traces traced.traces traced.num_queues 0) ≡ traced.num_queues
traced_twice = refl
