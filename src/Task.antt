-- ===== src/Task.antt =====
-- pyreljob/task.py: the context that flows through the tasks of a run, and the classes that users
-- write. The fields of a context that come from a JSON column hold any JSON value.
pub mod RoundTrip
pub mod Resolve
use pyreljob.Json.{Json, Dict}
use pyreljob.Json.Values.{empty_obj, or_default, get_item, set_item, to_int}
use pyreljob.Models.{Time, RunRecord, TaskRecord, Error, Result, ok, raised}
use pyreljob.Prelude.{
  ◌^◌, ℕ, zero, suc, String, Bool, true, false, ◌||◌, Option, none, some, List, [], ◌∷◌, ℤ, pos,
  ltb_ℤ, Float, if◌then◌else◌, get_elem?,
}

pub record TaskContext : Type 0 where
  pub job_id : ℤ
  pub job : Json
  pub args : Json
  pub results : Json
  pub state : Json
  pub cancelled : Bool
  pub progress : Option Float

-- TaskContext(…): an argument that is None or empty becomes an empty dict.
unfoldable pub new_context : ℤ → Json → Json → Json → Json → TaskContext
new_context job_id job args results state = record {
  job_id = job_id;
  job = job;
  args = or_default args empty_obj;
  results = or_default results empty_obj;
  state = or_default state empty_obj;
  cancelled = false;
  progress = none;
}

-- A number above 1 is above its denominator.
abbrev pub exceeds_one : Float → Bool
exceeds_one x = ltb_ℤ (pos (2 ^ x.scale)) x.mantissa

-- The value that is stored in the run too; ValueError if it is out of range.
unfoldable pub set_progress : Float → TaskContext → Result TaskContext
set_progress progress ctx =
    if ltb_ℤ progress.mantissa (pos 0) || exceeds_one progress
    then raised Error.value_error
    else ok (record ctx { progress = some progress })

unfoldable pub check_cancelled : TaskContext → Result (Unit {0})
check_cancelled ctx = if ctx.cancelled then raised Error.job_cancelled_error else ok tt

-- `results.get(task_name)`: only a dict has one.
abbrev pub looked_up_in : Json → String → Result Json
unfolding get_item
looked_up_in (Json.obj d) task_name = ok (get_item task_name d)
looked_up_in _ task_name = raised Error.attribute_error

unfoldable pub result : String → TaskContext → Result Json
unfolding get_item
result task_name ctx = looked_up_in ctx.results task_name

unfoldable pub as_dict : TaskContext → Dict
as_dict ctx = Dict.entry "job_id" (Json.int ctx.job_id) (
    Dict.entry "job" ctx.job (
      Dict.entry "args" ctx.args
        (Dict.entry "results" ctx.results (Dict.entry "state" ctx.state Dict.end))))

abbrev pub with_id : Dict → Result ℤ → Result TaskContext
unfolding new_context get_item
with_id stored (raised e) = raised e
with_id stored (ok job_id) = ok (
    new_context job_id (or_default (get_item "job" stored) (Json.text ""))
      (or_default (get_item "args" stored) empty_obj)
      (or_default (get_item "results" stored) empty_obj)
      (or_default (get_item "state" stored) empty_obj))

-- `read` is int(…) of a text.
unfoldable pub from_dict : (String → Result ℤ) → Dict → Result TaskContext
unfolding new_context get_item
from_dict read stored =
    with_id stored (to_int read (or_default (get_item "job_id" stored) (Json.int (pos 0))))

-- How a coroutine of the user ends, within its timeout. The text is `type(exc).__name__: exc`.
pub data Outcome : Type 0 where
  returned : Json → Outcome
  cancelled : Outcome
  failed : String → Outcome

-- What one call of a task's run does: the progress that it reports, the context that it leaves, and
-- how it ends.
pub record Execution : Type 0 where
  pub reports : List Float
  pub ctx : TaskContext
  pub outcome : Outcome

-- A user's class. Its code may behave differently at each step of the caller, whose number it gets. What
-- undo leaves of the context, it leaves also if it raises.
pub record TaskClass : Type 0 where
  pub name : String
  pub task_name : String
  pub max_attempts : Option ℕ
  pub run : ℕ → TaskContext → Execution
  pub undo : ℕ → TaskContext → Result (Unit {0}) × TaskContext

-- A user's job class: from_dict and next_runtime in one, given the args of the job.
pub record JobClass : Type 0 where
  pub tasks : List TaskClass
  pub next_runtime : ℕ → Json → RunRecord → TaskContext → Result (Option Time)

abbrev pub class_at : Option TaskClass → Result TaskClass
class_at none = raised Error.value_error
class_at (some c) = ok c

unfoldable pub task_for_record : TaskRecord → JobClass → Result TaskClass
task_for_record r cls = class_at (get_elem? cls.tasks r.position)
