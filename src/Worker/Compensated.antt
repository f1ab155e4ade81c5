-- ===== src/Worker/Compensated.antt =====
-- _compensate: the tasks that it undoes and their order.
use mathlib.Core.List.{reverse, append-nil, append_assoc}
use pyreljob.Backend.Tasks.{is_task, task_of, by_position, tasks, compensate_task}
use pyreljob.Models.{Db, TaskModel, TaskRecord, Result, ok, is_succeeded}
use pyreljob.Prelude.{
  ℕ, suc, ◌≡◌, refl, sym, ap, ◌∙◌, arith, Bool, true, false, ◌&&◌, List, [], ◌∷◌, ◌++◌, map, ◌==◌,
  All, All-map_mono, Bool-cases, inl, inr,
}
use pyreljob.Sql.{select, update, exists}
use pyreljob.Sql.Exists.{exists-reverse, exists-order_by, exists-select, All-exists}
use pyreljob.Task.{TaskContext, TaskClass, JobClass, task_for_record}
use pyreljob.Worker.Action.{Env, World, read, write, transact}
use pyreljob.Worker.Failure.{compensate_one, compensate_all, compensate}

abbrev pub has_succeeded : TaskModel → Bool
has_succeeded t = is_succeeded t.status

abbrev pub position_of : TaskRecord → ℕ
position_of t = t.position

-- The positions to undo, of records that stand in this order.
abbrev pub undoable : List TaskRecord → List ℕ
unfolding select
undoable rs = map position_of (select has_succeeded rs)

undoable-cons :
    (r : TaskRecord) (rs : List TaskRecord) → undoable (r ∷ []) ++ undoable rs ≡ undoable (r ∷ rs)
unfolding select
undoable-cons r rs = elim (Bool-cases (has_succeeded r)) [ inl e ↦ rw e refl | inr e ↦ rw e refl ]

-- If the task is of the run and has succeeded, one of these succeeded records is of its position.
abbrev pub IsCovered : ℕ → List TaskRecord → TaskModel → Type 0
IsCovered run_id rs t =
    (task_of run_id t && has_succeeded t) ≡ true
    → exists (λ s. has_succeeded s && (s.position == t.position)) rs ≡ true

IsCovered-compensated :
    (run_id : ℕ) (r : TaskRecord) (rs : List TaskRecord) (now : ℕ → ℕ) (db : Db)
    → All (IsCovered run_id (r ∷ rs)) db.tasks
    → All (IsCovered run_id rs) (compensate_task run_id r.position now db).tasks
unfolding compensate_task update exists
IsCovered-compensated run_id r rs now db h = go db.tasks h
  where
    go :
        (ts : List TaskModel)
        → All (IsCovered run_id (r ∷ rs)) ts
        → All
            (IsCovered run_id rs)
            (compensate_task run_id r.position now (record db { tasks = ts })).tasks
    go [] h = tt
    go (t ∷ ts) h = (
      elim (Bool-cases (is_task run_id r.position t)) [
        | inl e ↦ rw e (λ k. absurd (ground (arith, k)))
        | inr e ↦ rw e (λ k. ground (arith, k, e, h.0 k))
      ],
      go ts h.1,
    )

IsCovered-skipped :
    (run_id : ℕ) (r : TaskRecord) (rs : List TaskRecord) (ts : List TaskModel)
    → has_succeeded r ≡ false
    → All (IsCovered run_id (r ∷ rs)) ts
    → All (IsCovered run_id rs) ts
unfolding exists
IsCovered-skipped run_id r rs [] e h = tt
IsCovered-skipped run_id r rs (t ∷ ts) e h =
    ((λ k. ground (arith, e, h.0 k)), IsCovered-skipped run_id r rs ts e h.1)

tasks-IsCovered :
    (run_id : ℕ) (db : Db) → All (IsCovered run_id (reverse (tasks run_id db))) db.tasks
unfolding tasks
tasks-IsCovered run_id db =
    All-map_mono
      (λ t h k.
        exists-reverse _ (tasks run_id db)
        ∙ exists-order_by _ by_position (select (task_of run_id) db.tasks)
        ∙ exists-select _ (task_of run_id) db.tasks
        ∙ h k)
      db.tasks
      (All-exists (λ t. task_of run_id t && has_succeeded t)
        (λ s t. task_of run_id s && (has_succeeded s && (s.position == t.position)))
        (λ t k. ground (arith, k)) db.tasks)

-- A row of the run is not succeeded.
abbrev pub IsCompensated : ℕ → Db → Type 0
IsCompensated run_id db = exists (λ t. task_of run_id t && has_succeeded t) db.tasks ≡ false

IsCovered-none :
    (run_id : ℕ) (ts : List TaskModel)
    → All (IsCovered run_id []) ts
    → exists (λ t. task_of run_id t && has_succeeded t) ts ≡ false
unfolding exists
IsCovered-none run_id [] h = refl
IsCovered-none run_id (t ∷ ts) h = elim (Bool-cases (task_of run_id t && has_succeeded t)) [
  | inl e ↦ absurd (ground (arith, h.0 e))
  | inr e ↦ rw e (IsCovered-none run_id ts h.1)
]

-- A task that succeeded still has its class among those of the job.
abbrev pub HasClass : JobClass → TaskRecord → Type 0
HasClass cls r = has_succeeded r ≡ true → (task : TaskClass) × task_for_record r cls ≡ ok task

-- The records in the order in which they are undone.
abbrev pub to_undo : Env → ℕ → World → List TaskRecord
to_undo env run_id w = reverse (tasks run_id (env.others w.step w.db))

-- Nobody else marks a task of the run as succeeded.
module _ (env : Env) (run_id : ℕ) (cls : JobClass)
    (quiet : (k : ℕ) (db : Db) (rs : List TaskRecord)
      → All (IsCovered run_id rs) db.tasks
      → All (IsCovered run_id rs) (env.others k db).tasks) where
  -- What a loop over the records leaves.
  abbrev Compensates : List TaskRecord → Result TaskContext → World → World → Type 0
  Compensates rs x w w' =
      ((ctx' : TaskContext) × x ≡ ok ctx')
      × (w'.undone ≡ w.undone ++ undoable rs)
      × All (IsCovered run_id []) w'.db.tasks

  compensate_one-undoes :
      (r : TaskRecord) (rs : List TaskRecord) (ctx : TaskContext) (w : World)
      → HasClass cls r
      → All (IsCovered run_id (r ∷ rs)) w.db.tasks
      → ((ctx' : TaskContext) × (compensate_one env run_id cls r ctx w).0 ≡ ok ctx')
        × ((compensate_one env run_id cls r ctx w).1.undone ≡ w.undone ++ undoable (r ∷ []))
        × All (IsCovered run_id rs) (compensate_one env run_id cls r ctx w).1.db.tasks
  unfolding compensate_one write transact select
  compensate_one-undoes r rs ctx w known h = elim (Bool-cases (has_succeeded r)) [
    | inl e ↦
        let found = known e in
        rw (e, found.1)
          (
            ((found.0.undo w.step ctx).1, refl),
            refl,
            IsCovered-compensated run_id r rs (env.clock w.step) (env.others w.step w.db)
                (quiet w.step w.db (r ∷ rs) h),
          )
    | inr e ↦
        rw e ((ctx, refl), sym (append-nil w.undone), IsCovered-skipped run_id r rs w.db.tasks e h)
  ]

  compensate_all-undoes :
      (rs : List TaskRecord) (ctx : TaskContext) (w : World)
      → All (HasClass cls) rs
      → All (IsCovered run_id rs) w.db.tasks
      → Compensates rs
          (compensate_all env run_id cls rs ctx w).0
          w
          (compensate_all env run_id cls rs ctx w).1
  unfolding compensate_all select
  compensate_all-undoes [] ctx w known h = ((ctx, refl), sym (append-nil w.undone), h)
  compensate_all-undoes (r ∷ rs) ctx w known h =
      let one = compensate_one-undoes r rs ctx w known.0 h in
      let rest =
        compensate_all-undoes rs one.0.0 (compensate_one env run_id cls r ctx w).1 known.1 one.2 in
      rw one.0.1 (
        rest.0,
        rest.1
            ∙ ap (λ xs. xs ++ undoable rs) one.1
            ∙ append_assoc w.undone (undoable (r ∷ [])) (undoable rs)
            ∙ ap (λ xs. w.undone ++ xs) (undoable-cons r rs),
        rest.2,
      )

  -- Every task of the run that has succeeded is undone, the last position first, and none of them is
  -- succeeded afterwards, whatever undo does; if each still has its class in the job, and no other
  -- client marks a task of the run as succeeded.
  pub compensate-undoes :
      (ctx : TaskContext) (w : World)
      → All (HasClass cls) (to_undo env run_id w)
      → ((ctx' : TaskContext) × (compensate env run_id cls ctx w).0 ≡ ok ctx')
        × ((compensate env run_id cls ctx w).1.undone ≡ w.undone ++ undoable (to_undo env run_id w))
        × IsCompensated run_id (compensate env run_id cls ctx w).1.db
  unfolding compensate read transact
  compensate-undoes ctx w known =
      let before = env.others w.step w.db in
      let (returns, undoes, covered) =
        compensate_all-undoes (to_undo env run_id w) ctx
          (record w { db = before; step = suc w.step }) known (tasks-IsCovered run_id before) in
      (returns, undoes, IsCovered-none run_id _ covered)
