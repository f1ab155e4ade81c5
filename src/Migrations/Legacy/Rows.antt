-- ===== src/Migrations/Legacy/Rows.antt =====
-- The rows of jobs and runs that version 4 and the later ones make of legacy rows.
use pyreljob.Migrations.Legacy.{AreUpgraded, IsJobOf, IsRunOf, job_status, ready_status, source_of}
use pyreljob.Migrations.Schema.{Cell, Row, Connection, has_name, set_cell, is_null, is_text}
use pyreljob.Migrations.Statements.{has_duplicate, same_key, defaults, number_rows, new_row}
use pyreljob.Migrations.Steps.Entities.{
  entity_status, runs_table, split_schedule, collapse_status, run_values, run_status, backfilled,
}
use pyreljob.Migrations.Steps.{make_ready}
use pyreljob.Prelude.{
  ℕ, suc, ◌≡◌, ◌∙◌, refl, String, false, List, [], ◌∷◌, map, str_eq, if◌then◌else◌, inl, inr,
  Bool-cases, ap,
}
use pyreljob.Sql.{exists}

abbrev pub renamed_row : String → String → Row → Row
renamed_row old new r = set_cell new (r old) r

-- The rows of jobs when the runs are filled in.
abbrev pub split_rows : List Row → List Row
split_rows rows = map split_schedule (
    map (set_cell "idempotency_key" Cell.null) (
      map (set_cell "cron" Cell.null) (
        map (set_cell "source" (Cell.text "on_demand"))
          (map (renamed_row "payload" "args") (map (renamed_row "name" "job") rows)))))

abbrev pub job_rows : List Row → List Row
job_rows rows = map (set_cell "tags" Cell.null) (
    map (set_cell "attempts" (Cell.number 0)) (
      map (set_cell "retries" (Cell.number 0))
        (map (set_cell "updated_at" Cell.null) (map collapse_status (split_rows rows)))))

abbrev pub run_rows : Connection → ℕ → List Row → List Row
run_rows conn k rows = map (set_cell "progress" Cell.null) (
    map make_ready (
      map (set_cell "updated_at" Cell.null)
        (number_rows (new_row conn runs_table backfilled) k (map run_values (split_rows rows)))))

exists_same_key-null : (vs : List Cell) → exists (same_key Cell.null) vs ≡ false
unfolding exists
exists_same_key-null [] = refl
exists_same_key-null (v ∷ vs) = exists_same_key-null vs

split_schedule-key :
    (r : Row)
    → r "idempotency_key" ≡ Cell.null
    → collapse_status (split_schedule r) "idempotency_key" ≡ Cell.null
split_schedule-key r e = elim (Bool-cases (is_null (r "schedule"))) [
  | inl h ↦ rw h e
  | inr h ↦ rw h e
]

-- No backfilled job has a key.
pub has_duplicate-split_rows :
    (rows : List Row)
    → has_duplicate (map (λ r. r "idempotency_key") (map collapse_status (split_rows rows))) ≡ false
unfolding has_duplicate
has_duplicate-split_rows [] = refl
has_duplicate-split_rows (r ∷ rows) =
    rw
      (
        split_schedule-key _ refl,
        exists_same_key-null
            (map (λ x. x "idempotency_key") (map collapse_status (split_rows rows))),
      )
      (has_duplicate-split_rows rows)

set_cell-other : (c d : String) (v : Cell) (r : Row) → str_eq d c ≡ false → set_cell c v r d ≡ r d
set_cell-other c d v r e = ap (λ b. if b then v else r d) e

split_schedule-other :
    (r : Row) (c : String)
    → str_eq c "source" ≡ false
    → str_eq c "cron" ≡ false
    → split_schedule r c ≡ r c
split_schedule-other r c e f = elim (Bool-cases (is_null (r "schedule"))) [
  | inl h ↦ rw h refl
  | inr h ↦ rw h (
      set_cell-other "source" c (Cell.text "scheduled") (set_cell "cron" (r "schedule") r) e
      ∙ set_cell-other "cron" c (r "schedule") r f)
]

split_schedule-source :
    (r : Row)
    → r "source" ≡ Cell.text "on_demand"
    → split_schedule r "source" ≡ source_of (r "schedule")
split_schedule-source r e = elim (Bool-cases (is_null (r "schedule"))) [
  | inl h ↦ rw h e
  | inr h ↦ rw h refl
]

make_ready-other : (r : Row) (c : String) → str_eq c "status" ≡ false → make_ready r c ≡ r c
make_ready-other r c e = elim (Bool-cases (is_text "pending" (r "status"))) [
  | inl h ↦ rw h (set_cell-other "status" c (Cell.text "ready") r e)
  | inr h ↦ rw h refl
]

make_ready-status :
    (r : Row) (v : Cell) → r "status" ≡ run_status v → make_ready r "status" ≡ ready_status v
make_ready-status r v e = elim (Bool-cases (is_text "running" v)) [
  | inl h ↦ rw (e, h) refl
  | inr h ↦ elim (Bool-cases (is_text "pending" v)) [
    | inl g ↦ rw (e, h, g) refl
    | inr g ↦ rw (e, h, g) (rw h at e)
  ]
]

abbrev widened : Row → Row
widened r = set_cell "idempotency_key" Cell.null (
    set_cell "cron" Cell.null (
      set_cell "source" (Cell.text "on_demand")
        (renamed_row "payload" "args" (renamed_row "name" "job" r))))

abbrev job_row : Row → Row
job_row r = set_cell "tags" Cell.null (
    set_cell "attempts" (Cell.number 0) (
      set_cell "retries" (Cell.number 0)
        (set_cell "updated_at" Cell.null (collapse_status (split_schedule (widened r))))))

entity_status-job_status : (v : Cell) → entity_status v ≡ job_status v
entity_status-job_status Cell.null = refl
entity_status-job_status (Cell.text t) = refl
entity_status-job_status (Cell.number n) = refl
entity_status-job_status (Cell.json j) = refl
entity_status-job_status (Cell.instant t) = refl

IsJobOf-job_row : (r : Row) → IsJobOf r (job_row r)
IsJobOf-job_row r = record {
  id = split_schedule-other (widened r) "id" refl refl;
  job = split_schedule-other (widened r) "job" refl refl;
  args = split_schedule-other (widened r) "args" refl refl;
  status =
      ap entity_status (split_schedule-other (widened r) "status" refl refl)
      ∙ entity_status-job_status (r "status");
  queue = split_schedule-other (widened r) "queue" refl refl;
  priority = split_schedule-other (widened r) "priority" refl refl;
  max_attempts = split_schedule-other (widened r) "max_attempts" refl refl;
  next_run_at = split_schedule-other (widened r) "next_run_at" refl refl;
  created_at = split_schedule-other (widened r) "created_at" refl refl;
  retries = refl;
  attempts = refl;
  idempotency_key = split_schedule-other (widened r) "idempotency_key" refl refl;
  tags = refl;
  updated_at = refl;
  source = split_schedule-source (widened r) refl;
}

abbrev draft : Connection → ℕ → Row → Row
unfolding defaults has_name
draft conn k r =
    set_cell "updated_at" Cell.null
      (new_row conn runs_table backfilled k (run_values (split_schedule (widened r))))

abbrev run_row : Connection → ℕ → Row → Row
run_row conn k r = set_cell "progress" Cell.null (make_ready (draft conn k r))

IsRunOf-run_row : (conn : Connection) (k : ℕ) (r : Row) → IsRunOf k r (run_row conn k r)
unfolding defaults has_name
IsRunOf-run_row conn k r = record {
  id = make_ready-other (draft conn k r) "id" refl;
  job_id =
      make_ready-other (draft conn k r) "job_id" refl
      ∙ split_schedule-other (widened r) "id" refl refl;
  status =
      make_ready-status (draft conn k r) (r "status")
        (ap run_status (split_schedule-other (widened r) "status" refl refl));
  result =
      make_ready-other (draft conn k r) "result" refl
      ∙ split_schedule-other (widened r) "result" refl refl;
  error =
      make_ready-other (draft conn k r) "error" refl
      ∙ split_schedule-other (widened r) "error" refl refl;
  worker_id =
      make_ready-other (draft conn k r) "worker_id" refl
      ∙ split_schedule-other (widened r) "worker_id" refl refl;
  scheduled_at =
      make_ready-other (draft conn k r) "scheduled_at" refl
      ∙ split_schedule-other (widened r) "scheduled_at" refl refl;
  started_at =
      make_ready-other (draft conn k r) "started_at" refl
      ∙ split_schedule-other (widened r) "started_at" refl refl;
  finished_at =
      make_ready-other (draft conn k r) "finished_at" refl
      ∙ split_schedule-other (widened r) "finished_at" refl refl;
  locked_at =
      make_ready-other (draft conn k r) "locked_at" refl
      ∙ split_schedule-other (widened r) "locked_at" refl refl;
  created_at =
      make_ready-other (draft conn k r) "created_at" refl
      ∙ split_schedule-other (widened r) "created_at" refl refl;
  ctx = make_ready-other (draft conn k r) "ctx" refl;
  progress = refl;
  updated_at = make_ready-other (draft conn k r) "updated_at" refl;
}

pub AreUpgraded-rows :
    (conn : Connection) (k : ℕ) (rows : List Row)
    → AreUpgraded k rows (job_rows rows) (run_rows conn k rows)
unfolding AreUpgraded number_rows draft
AreUpgraded-rows conn k [] = tt
AreUpgraded-rows conn k (r ∷ rows) =
    (IsJobOf-job_row r, IsRunOf-run_row conn k r, AreUpgraded-rows conn (suc k) rows)
