-- ===== src/Backend/Cleanup/Pruned.antt =====
-- prune_runs: the runs that it deletes, and their tasks.
use mathlib.Core.List.{Memᴰ}
use mathlib.Core.Option.{some-injective}
use pyreljob.Backend.Cleanup.{prune_runs, prune_found, delete_runs, prunable, task_in}
use pyreljob.Backend.Cleanup.Outcome.{rowcount-delete, select-delete}
use pyreljob.Backend.Validity.{IsValid}
use pyreljob.Effects.{alone}
use pyreljob.Models.{Time, Db, RunModel, RunStatus, TaskModel, ok, run_key}
use pyreljob.Prelude.{
  ℕ, ◌≡◌, refl, sym, ap, subst, ◌∙◌, Bool, true, not, List, [], ◌∷◌, map, arith, inl, inr,
  Bool-cases, length, All, Option, none, some, ltb, false,
}
use pyreljob.Sql.{find, select, delete, rowcount, is_in}
use pyreljob.Sql.Batch.{mem_of_is_in, is_in-of_mem}
use pyreljob.Sql.Count.{length-select}
use pyreljob.Sql.Keyed.{
  find-select, find-of_mem, kept, mem-select, All-mem, All-of_mem, All-select_where,
}

select-ext {ℓ} :
    {A : Type ℓ} (p q : A → Bool) (xs : List A)
    → All (λ x. p x ≡ q x) xs
    → select p xs ≡ select q xs
unfolding select
select-ext p q [] h = refl
select-ext p q (x ∷ xs) h = ground (arith, select-ext p q xs h.1)

delete_nil-runs : (rs : List RunModel) → delete (λ r. is_in r.id []) rs ≡ rs
unfolding delete is_in
delete_nil-runs [] = refl
delete_nil-runs (r ∷ rs) = ap (◌∷◌ r) (delete_nil-runs rs)

delete_nil-tasks : (ts : List TaskModel) → delete (task_in []) ts ≡ ts
unfolding delete is_in
delete_nil-tasks [] = refl
delete_nil-tasks (t ∷ ts) = ap (◌∷◌ t) (delete_nil-tasks ts)

length-ids : (rs : List RunModel) → length (map run_key rs) ≡ length rs
length-ids [] = refl
length-ids (r ∷ rs) = ap (λ (n : ℕ). n) (omega (arith, length-ids rs))

prune_found-eq :
    (ids : List ℕ) (db : Db) → prune_found alone ids db ≡ (ok (length ids), delete_runs ids db)
unfolding delete_runs
prune_found-eq [] db = rw (delete_nil-runs db.runs, delete_nil-tasks db.tasks) refl
prune_found-eq (k ∷ ks) db = refl

-- A run that has ended, before the bound.
abbrev pub ended_before : Time → RunModel → Bool
ended_before older_than r = before r.status r.finished_at
  where
    before : RunStatus → Option Time → Bool
    before RunStatus.succeeded (some t) = ltb t older_than
    before RunStatus.failed (some t) = ltb t older_than
    before RunStatus.cancelled (some t) = ltb t older_than
    before _ _ = false

prunable-ended_before :
    (older_than : Time) (r : RunModel) → prunable older_than r ≡ ended_before older_than r
prunable-ended_before older_than r = go r.status r.finished_at
  where
    go :
        (s : RunStatus) (at : Option Time)
        → prunable older_than (record r { status = s; finished_at = at })
          ≡ ended_before older_than (record r { status = s; finished_at = at })
    go RunStatus.ready at = refl
    go RunStatus.running at = refl
    go RunStatus.succeeded none = refl
    go RunStatus.failed none = refl
    go RunStatus.cancelled none = refl
    go RunStatus.succeeded (some t) = refl
    go RunStatus.failed (some t) = refl
    go RunStatus.cancelled (some t) = refl

module _ (older_than : Time) (db : Db) where
  abbrev pub ids_of : (RunModel → Bool) → List ℕ
  ids_of p = map run_key (select p db.runs)

  -- The runs that satisfy the test are deleted, and their tasks, and nothing else.
  abbrev pub IsPruned : (RunModel → Bool) → Type 0
  IsPruned p =
      (db' : Db) × (prune_runs alone older_than db ≡ (ok (rowcount p db.runs), db'))
      × ((k : ℕ) → find run_key k db'.runs ≡ kept (λ r. not (p r)) (find run_key k db.runs))
      × (rowcount (task_in (ids_of p)) db'.tasks ≡ 0)
      × (select (λ t. not (task_in (ids_of p) t)) db'.tasks
          ≡ select (λ t. not (task_in (ids_of p) t)) db.tasks)
      × (db'.jobs ≡ db.jobs)

module _ (older_than : Time) (db : Db) (v : IsValid db) where
  abbrev pruned_ids : List ℕ
  pruned_ids = ids_of older_than db (prunable older_than)

  is_in-prunable : (r : RunModel) → Memᴰ r db.runs → is_in r.id pruned_ids ≡ prunable older_than r
  is_in-prunable r m = elim (Bool-cases (is_in r.id pruned_ids)) [
    | inl e ↦
        let (s, ms, same) = mem_of_is_in run_key r.id (select (prunable older_than) db.runs) e in
        let (listed, old) =
          All-mem (λ t. Memᴰ t db.runs × (prunable older_than t ≡ true))
            (select (prunable older_than) db.runs) (All-select_where (prunable older_than) db.runs)
            s ms in
        let s≡r : s ≡ r = some-injective s r (
          sym (find-of_mem run_key db.runs s v.run_ids listed)
          ∙ ap (λ k. find run_key k db.runs) same
          ∙ find-of_mem run_key db.runs r v.run_ids m) in
        e ∙ sym (subst (λ t. prunable older_than t ≡ true) s≡r old)
    | inr e ↦ elim (Bool-cases (prunable older_than r)) [
      | inl old ↦ absurd (
          ground (
            arith,
            e,
            is_in-of_mem run_key (select (prunable older_than) db.runs) r
                (mem-select (prunable older_than) db.runs r m old),
          ))
      | inr young ↦ e ∙ sym young
    ]
  ]

  pruned-rows : All (λ r. not (is_in r.id pruned_ids) ≡ not (prunable older_than r)) db.runs
  pruned-rows =
      All-of_mem (λ r. not (is_in r.id pruned_ids) ≡ not (prunable older_than r)) db.runs
        (λ r m. ap not (is_in-prunable r m))

  prune_runs-outcome_of : IsPruned older_than db (prunable older_than)
  unfolding prune_runs delete_runs delete
  prune_runs-outcome_of = (
    delete_runs pruned_ids db,
    prune_found-eq pruned_ids db
        ∙ ap (λ n. (ok n, delete_runs pruned_ids db))
            (length-ids (select (prunable older_than) db.runs)
              ∙ length-select (prunable older_than) db.runs),
    (λ k.
        ap (find run_key k) (
          select-ext (λ r. not (is_in r.id pruned_ids)) (λ r. not (prunable older_than r)) db.runs
            pruned-rows)
        ∙ find-select run_key k (λ r. not (prunable older_than r)) db.runs v.run_ids),
    rowcount-delete (task_in pruned_ids) db.tasks,
    select-delete (λ t. not (task_in pruned_ids t)) (task_in pruned_ids) db.tasks
        (λ t e. ground (arith, e)),
    refl,
  )

  -- In valid tables and with nobody else writing, prune_runs returns the number of finished runs that
  -- ended before the bound, deletes those and no other run, deletes their tasks and no other task, and keeps every job.
  pub prune_runs-outcome : IsPruned older_than db (ended_before older_than)
  prune_runs-outcome =
      let same : prunable older_than ≡ ended_before older_than =
        λ i r. prunable-ended_before older_than r i in
      subst (IsPruned older_than db) same prune_runs-outcome_of
