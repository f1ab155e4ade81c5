-- ===== src/Worker/Recorded.antt =====
-- What later tasks see of a result.
use pyreljob.Json.{Json, Dict}
use pyreljob.Json.Values.{get_item, insert_item}
use pyreljob.Models.{ok}
use pyreljob.Prelude.{ℕ, String, ◌≡◌, refl, false, Bool-cases, inl, inr, str_eq, str_eq_iff}
use pyreljob.Task.{TaskContext, TaskClass, result}
use pyreljob.Worker.Action.{Env, World, write, transact}
use pyreljob.Worker.Attempt.{record_result}

get_item-insert_item : (key : String) (v : Json) (d : Dict) → get_item key (insert_item key v d) ≡ v
unfolding get_item insert_item
get_item-insert_item key v Dict.end = rw ((str_eq_iff key key).1 refl) refl
get_item-insert_item key v (Dict.entry k w d) = elim (Bool-cases (str_eq k key)) [
  | inl e ↦ rw (e, e) refl
  | inr e ↦ rw (e, e) (get_item-insert_item key v d)
]

get_item-insert_item_other :
    (key name : String) (v : Json) (d : Dict)
    → str_eq key name ≡ false
    → get_item name (insert_item key v d) ≡ get_item name d
unfolding get_item insert_item
get_item-insert_item_other key name v Dict.end h = rw h refl
get_item-insert_item_other key name v (Dict.entry k w d) h = elim (Bool-cases (str_eq k key)) [
  | inl e ↦ rw e (go ((str_eq_iff k key).0 e))
  | inr e ↦ rw e (elim (Bool-cases (str_eq k name)) [
    | inl f ↦ rw f refl
    | inr f ↦ rw f (get_item-insert_item_other key name v d h)
  ])
]
  where
    go : k ≡ key → get_item name (Dict.entry k v d) ≡ get_item name (Dict.entry k w d)
    go same = rw (same, h) refl

-- Once a task has returned a value, later tasks of the run get this value under the name of its class,
-- and under any other name what they got before; if the results so far are a dict.
pub record_result-result :
    (env : Env) (run_id : ℕ) (task : TaskClass) (ctx : TaskContext) (position : ℕ) (value : Json)
    (d : Dict) (w : World)
    → ctx.results ≡ Json.obj d
    → (ctx' : TaskContext) × ((record_result env run_id task ctx position value w).0 ≡ ok ctx')
      × (result task.name ctx' ≡ ok value)
      × ((name : String) → str_eq task.name name ≡ false → result name ctx' ≡ result name ctx)
unfolding record_result write transact result
record_result-result env run_id task ctx position value d w e = rw e (
  record ctx { results = Json.obj (insert_item task.name value d) },
  refl,
  rw (get_item-insert_item task.name value d) refl,
  λ name other. rw (get_item-insert_item_other task.name name value d other) refl,
)
