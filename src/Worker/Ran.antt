-- ===== src/Worker/Ran.antt =====
-- Which tasks one execution runs: _run and _run_task.
pub mod Again
use mathlib.Core.List.{append-nil, append_assoc}
use pyreljob.Backend.Tasks.{start_task}
use pyreljob.Models.{JobRecord, TaskRecord, Error, Result, ok, raised}
use pyreljob.Prelude.{
  ==_iff, ℕ, zero, suc, ◌+◌, ◌≡◌, refl, sym, ap, subst, ◌∙◌, arith, Bool, true, false, Option, List,
  [], ◌∷◌, ◌++◌, ◌⊎◌, inl, inr, leb, ltb, ◌==◌, length, drop, get_elem?, Bool-cases, if◌then◌else◌,
}
use pyreljob.Task.{TaskContext, TaskClass, JobClass}
use pyreljob.Worker.Action.{
  Env, World, Action, continue, ◌>>=◌, ◌>>◌, current_step, note_run, note_undo, write_or_raise,
}
use pyreljob.Worker.Attempt.{Verdict, attempts_of, report, conclude, run_task}
use pyreljob.Worker.Execute.{
  record_at, first_open, is_open, is_exhausted, error_of, after_attempt, run_tasks, finish_failed,
  resume,
}
use pyreljob.Worker.Frame.{finish-Keeps, reschedule-Keeps}
use pyreljob.Worker.Frame.Attempt.{report-Keeps, conclude-Keeps, finish_failed-Keeps}
use pyreljob.Worker.Start.{first_open-leb, first_open-closed, first_open-open, length-drop}
use pyreljob.Worker.Rules.{Tolerates, Keeps, Keeps-bind}

-- `n` positions from `start` on.
abbrev pub positions : ℕ → ℕ → List ℕ
positions start zero = []
positions start (suc n) = start ∷ positions (suc start) n

-- What the worker and the others commit runs no task, and undoing a task runs none.
ran-Tolerates : (env : Env) (xs : List ℕ) → Tolerates env (λ w. w.ran ≡ xs)
ran-Tolerates env xs = record { reads = λ w h. h; writes = λ c w u h. h }

ran-undo : (xs : List ℕ) (position : ℕ) → Keeps (λ w. w.ran ≡ xs) (note_undo position)
ran-undo xs position = record { at = λ w h. h }

module _ (env : Env) (run_id : ℕ) (cls : JobClass) (job : JobRecord) where
  abbrev pub starting : ℕ → TaskClass → Option TaskRecord → Action (Unit {0})
  starting position task existing = write_or_raise env (λ k.
      start_task (env.inserted k).id run_id position task.task_name (attempts_of existing + 1)
        (env.clock k))

  -- An attempt runs its task, unless start_task raised.
  pub run_task-ran :
      (ctx : TaskContext) (position : ℕ) (task : TaskClass) (existing : Option TaskRecord)
      (w : World)
      → ((run_task env run_id cls job ctx position task existing w).1.ran ≡ w.ran ++ position ∷ [])
        ⊎ (((run_task env run_id cls job ctx position task existing w).1.ran ≡ w.ran)
            × (e : Error) × ((starting position task existing w).0 ≡ raised e)
            × ((run_task env run_id cls job ctx position task existing w).0 ≡ raised e))
  unfolding run_task write_or_raise
  run_task-ran ctx position task existing w =
      go (starting position task existing w).0 (starting position task existing w).1 refl
    where
      f : Action (Verdict × TaskContext)
      f = do
        step ← current_step
        note_run position
        let done = task.run step ctx
        report env run_id ctx done.reports
        conclude env run_id cls job position task (attempts_of existing + 1) done.ctx done.outcome

      go :
          (x : Result (Unit {0})) (w' : World)
          → w'.ran ≡ w.ran
          → ((continue x (λ u. f) w').1.ran ≡ w.ran ++ position ∷ [])
            ⊎ (((continue x (λ u. f) w').1.ran ≡ w.ran)
                × (e : Error) × (x ≡ raised e)
                × ((continue x (λ u. f) w').0 ≡ raised e))
      go (ok u) w' h = inl (
          (Keeps-bind _ _
              (report-Keeps env (λ v. v.ran ≡ w.ran ++ position ∷ []) (ran-Tolerates env _) run_id
                ctx (task.run w'.step ctx).reports)
              (λ v.
                conclude-Keeps env (λ v. v.ran ≡ w.ran ++ position ∷ []) (ran-Tolerates env _)
                  (ran-undo _) run_id cls job position task (attempts_of existing + 1)
                  (task.run w'.step ctx).ctx (task.run w'.step ctx).outcome)).at
            (record w' { ran = w'.ran ++ position ∷ [] }) (ap (λ xs. xs ++ position ∷ []) h))
      go (raised e) w' h = inr (h, e, refl, refl)

  -- What the loop adds to the positions that ran.
  abbrev pub RanFrom : Action (Unit {0}) → ℕ → ℕ → World → Type 0
  RanFrom m position most w =
      (n : ℕ) × ((m w).1.ran ≡ w.ran ++ positions position n) × (leb n most ≡ true)

  -- What follows an attempt runs the positions after it.
  pub after_attempt-ran :
      (rest : TaskContext → Action (Unit {0})) (position most : ℕ) (xs : List ℕ)
      (x : Result (Verdict × TaskContext)) (w' : World)
      → w'.ran ≡ xs ++ position ∷ []
      → ((ctx' : TaskContext) (v : World) → RanFrom (rest ctx') (suc position) most v)
      → (n : ℕ) × ((continue x (after_attempt env run_id cls job rest) w').1.ran
          ≡ xs ++ positions position (suc n))
        × (leb n most ≡ true)
  unfolding after_attempt
  after_attempt-ran rest position most xs (raised e) w' h ih = (0, h, ground arith)
  after_attempt-ran rest position most xs (ok (Verdict.succeeded, ctx')) w' h ih =
      let more = ih ctx' w' in
      (
        more.0,
        more.1
            ∙ ap (λ ys. ys ++ positions (suc position) more.0) h
            ∙ append_assoc xs (position ∷ []) (positions (suc position) more.0),
        more.2,
      )
  after_attempt-ran rest position most xs (ok (Verdict.stopped, ctx')) w' h ih =
      (0, h, ground arith)
  after_attempt-ran rest position most xs (ok (Verdict.retrying, ctx')) w' h ih =
      (0, h, ground arith)
  after_attempt-ran rest position most xs (ok (Verdict.gave_up, ctx')) w' h ih = (
    0,
    (reschedule-Keeps env (λ v. v.ran ≡ xs ++ position ∷ []) (ran-Tolerates env _) cls job run_id
          ctx').at
        w' h,
    ground arith,
  )

  pub run_tasks-ran :
      (records : List TaskRecord) (position : ℕ) (rest : List TaskClass) (ctx : TaskContext)
      (w : World)
      → RanFrom (run_tasks env run_id cls job records position rest ctx) position (length rest) w
  unfolding run_tasks
  run_tasks-ran records position [] ctx w = (
    0,
    (finish-Keeps env (λ v. v.ran ≡ w.ran ++ []) (ran-Tolerates env _) run_id cls job ctx).at w
        (sym (append-nil w.ran)),
    refl,
  )
  run_tasks-ran records position (task ∷ rest) ctx w =
      go (m w).0 (m w).1 (run_task-ran ctx position task (record_at position records) w)
        (run_tasks-ran records (suc position) rest)
    where
      m : Action (Verdict × TaskContext)
      m = run_task env run_id cls job ctx position task (record_at position records)

      f : Verdict × TaskContext → Action (Unit {0})
      f =
          after_attempt env run_id cls job
            (λ ctx'. run_tasks env run_id cls job records (suc position) rest ctx')

      go :
          (x : Result (Verdict × TaskContext)) (w' : World)
          → (w'.ran ≡ w.ran ++ position ∷ [])
            ⊎ ((w'.ran ≡ w.ran)
                × (e : Error) × ((starting position task (record_at position records) w).0
                    ≡ raised e)
                × (x ≡ raised e))
          → ((ctx' : TaskContext) (v : World)
              → RanFrom
                  (run_tasks env run_id cls job records (suc position) rest ctx')
                  (suc position)
                  (length rest)
                  v)
          → (n : ℕ) × ((continue x f w').1.ran ≡ w.ran ++ positions position n)
            × (leb n (suc (length rest)) ≡ true)
      go x w' (inl h) ih =
          let more =
            after_attempt-ran
              (λ ctx'. run_tasks env run_id cls job records (suc position) rest ctx') position
              (length rest) w.ran x w' h ih in
          (suc more.0, more.1, ground (arith, more.2))
      go (raised e) w' (inr h) ih = (0, h.0 ∙ sym (append-nil w.ran), ground arith)
      go (ok v) w' (inr h) ih = absurd (ground (arith, h.3))

  -- An execution runs consecutive tasks, each at most once and none beyond the last, from the first one
  -- on that has not succeeded: that one has not, unless all have, and every task before it has. It runs
  -- none if that task has failed as often as it may.
  pub resume-ran :
      (records : List TaskRecord) (ctx : TaskContext) (w : World)
      → let start = first_open cls.tasks 0 records in
        (n : ℕ) × ((resume env run_id cls job records ctx w).1.ran ≡ w.ran ++ positions start n)
        × (leb (start + n) (length cls.tasks) ≡ true)
        × (is_exhausted job (get_elem? cls.tasks start) (record_at start records) ≡ true → n ≡ 0)
        × (ltb start (length cls.tasks) ≡ true → is_open (record_at start records) ≡ true)
        × ((p : ℕ) → ltb p start ≡ true → is_open (record_at p records) ≡ false)
  unfolding resume
  resume-ran records ctx w = elim (Bool-cases exhausted) [
    | inl e ↦ (
      0,
      ap (λ b. ((if b then failing else running) w).1.ran) e
          ∙ (finish_failed-Keeps env (λ v. v.ran ≡ w.ran ++ []) (ran-Tolerates env _) (ran-undo _)
                run_id cls job ctx (error_of existing)).at
              w (sym (append-nil w.ran)),
      ground (arith, first_open-leb cls.tasks 0 records),
      λ u. refl,
      λ h. first_open-open cls.tasks 0 records (ground (arith, h)),
      λ p h. first_open-closed cls.tasks 0 records p (ground arith) h,
    )
    | inr e ↦
        let more = run_tasks-ran records start (drop start cls.tasks) ctx w in
        (
          more.0,
          ap (λ b. ((if b then failing else running) w).1.ran) e ∙ more.1,
          ground (arith, more.2, first_open-leb cls.tasks 0 records, length-drop start cls.tasks),
          λ u. absurd (ground (arith, e, u)),
          λ h. first_open-open cls.tasks 0 records (ground (arith, h)),
          λ p h. first_open-closed cls.tasks 0 records p (ground arith) h,
        )
  ]
    where
      start : ℕ
      start = first_open cls.tasks 0 records

      existing : Option TaskRecord
      existing = record_at start records

      exhausted : Bool
      exhausted = is_exhausted job (get_elem? cls.tasks start) existing

      failing : Action (Unit {0})
      failing = finish_failed env run_id cls job ctx (error_of existing)

      running : Action (Unit {0})
      running = run_tasks env run_id cls job records start (drop start cls.tasks) ctx
