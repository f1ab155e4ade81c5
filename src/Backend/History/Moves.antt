-- ===== src/Backend/History/Moves.antt =====
-- The life cycle of a run, as what one transaction may do to its status.
use mathlib.Core.Option
use pyreljob.Backend.History.{Write}
use pyreljob.Backend.Jobs.{Enqueue}
use pyreljob.Backend.Validity.{IsValid}
use pyreljob.Models.{
  Inserted, in_flight, Time, Readings, Db, RunModel, RunStatus, run_key, is_ready, is_running,
}
use pyreljob.Prelude.{
  ℕ, String, ◌≡◌, refl, sym, subst, Bool, true, false, Option, none, some, List, [], ◌∷◌, ◌++◌,
  arith, ◌==◌, if◌then◌else◌, ◌||◌, Bool-cases, inl, inr,
}
use pyreljob.Json.{Json}
use pyreljob.Sql.{is_in, find, select, update}
use pyreljob.Sql.Keyed.{kept, find-select}
use pyreljob.Sql.Rows.{find-update, find-append, key-find}

-- What one transaction may do to the status of the run `k`, none while it is not there.
pub data Moves (k : ℕ) : Write → Option RunStatus → Option RunStatus → Type 0 where
  stays : {w : Write} {s : Option RunStatus} → Moves k w s s
  is_enqueued :
      {row run_row : Inserted} {now : Readings} {q : Enqueue}
      → Moves k (Write.enqueues row run_row now q) none (some RunStatus.ready)
  is_created :
      {row : Inserted} {job_id : ℕ} {at : Option Time} {now : Readings}
      → Moves k (Write.creates_run row job_id at now) none (some RunStatus.ready)
  is_claimed :
      {i : ℕ} {worker_id : String} {now lease_expiry : Time}
      → i ≡ k
      → Moves k
          (Write.claims i worker_id now lease_expiry)
          (some RunStatus.ready)
          (some RunStatus.running)
  succeeds :
      {i : ℕ} {result : Option Json} {now : Readings}
      → i ≡ k
      → Moves k (Write.completes i result now) (some RunStatus.running) (some RunStatus.succeeded)
  gives_up :
      {i : ℕ} {error : String} {n : ℕ} {now : Readings}
      → i ≡ k
      → Moves k (Write.fails i error none n now) (some RunStatus.running) (some RunStatus.failed)
  tries_again :
      {i : ℕ} {error : String} {at : Time} {n : ℕ} {now : Readings}
      → i ≡ k
      → Moves k
          (Write.fails i error (some at) n now)
          (some RunStatus.running)
          (some RunStatus.ready)
  is_abandoned :
      {now : Time} {stale : List RunModel}
      → Moves k (Write.sweeps now stale) (some RunStatus.ready) (some RunStatus.failed)
  is_cancelled :
      {i : ℕ} {now : Readings} {s : RunStatus}
      → i ≡ k
      → Moves k (Write.cancels_run i now) (some s) (some RunStatus.cancelled)
  goes_with_job :
      {job_id : ℕ} {now : Readings} {s : RunStatus}
      → in_flight s ≡ true
      → Moves k (Write.cancels_job job_id now) (some s) (some RunStatus.cancelled)
  is_deleted :
      {run_ids : List ℕ} {s : RunStatus}
      → is_in k run_ids ≡ true
      → Moves k (Write.deletes_runs run_ids) (some s) none
  is_deleted_with_job :
      {job_id : ℕ} {s : RunStatus} → Moves k (Write.deletes_job job_id) (some s) none

abbrev pub status_of : ℕ → Db → Option RunStatus
status_of k db = Option.map (λ r. r.status) (find run_key k db.runs)

pub moved_from :
    {k : ℕ} {w : Write} {s t : RunStatus} {u : RunStatus}
    → s ≡ t
    → Moves k w (some t) (some u)
    → Moves k w (some s) (some u)
moved_from {k} {w} {u} e m = subst (λ x. Moves k w (some x) (some u)) (sym e) m

pub running_of : (s : RunStatus) → is_running s ≡ true → s ≡ RunStatus.running
running_of RunStatus.running h = refl
running_of RunStatus.ready h = absurd (ground (arith, h))
running_of RunStatus.succeeded h = absurd (ground (arith, h))
running_of RunStatus.failed h = absurd (ground (arith, h))
running_of RunStatus.cancelled h = absurd (ground (arith, h))

pub ready_of : (s : RunStatus) → is_ready s ≡ true → s ≡ RunStatus.ready
ready_of RunStatus.ready h = refl
ready_of RunStatus.running h = absurd (ground (arith, h))
ready_of RunStatus.succeeded h = absurd (ground (arith, h))
ready_of RunStatus.failed h = absurd (ground (arith, h))
ready_of RunStatus.cancelled h = absurd (ground (arith, h))

pub claimable-Moves :
    {k i : ℕ} {worker_id : String} {now lease_expiry : Time} (s : RunStatus)
    → i ≡ k
    → (is_ready s || is_running s) ≡ true
    → Moves k (Write.claims i worker_id now lease_expiry) (some s) (some RunStatus.running)
claimable-Moves RunStatus.ready e h = is_claimed e
claimable-Moves RunStatus.running e h = stays
claimable-Moves RunStatus.succeeded e h = absurd (ground (arith, h))
claimable-Moves RunStatus.failed e h = absurd (ground (arith, h))
claimable-Moves RunStatus.cancelled e h = absurd (ground (arith, h))

abbrev pub status_in : ℕ → List RunModel → Option RunStatus
status_in k rs = Option.map (λ r. r.status) (find run_key k rs)

module _ (w : Write) (k : ℕ) (runs : List RunModel) where
  pub update-Moves :
      (p : RunModel → Bool) (f : RunModel → RunModel)
      → ((s : RunModel) → run_key (f s) ≡ run_key s)
      → ((s : RunModel)
          → run_key s ≡ k
          → p s ≡ true
          → Moves k w (some s.status) (some (f s).status))
      → Moves k w (status_in k runs) (status_in k (update p f runs))
  update-Moves p f same h = rw (find-update run_key k p f same runs) (go (find run_key k runs) refl)
    where
      go :
          (o : Option RunModel)
          → find run_key k runs ≡ o
          → Moves k w
              (Option.map (λ r. r.status) o)
              (Option.map (λ r. r.status) (Option.map (λ x. if p x then f x else x) o))
      go none _ = stays
      go (some r) found = elim (Bool-cases (p r)) [
        | inl e ↦ rw e (h r (key-find run_key k runs r found) e)
        | inr e ↦ rw e stays
      ]

  pub append-Moves :
      (s : RunModel)
      → s.status ≡ RunStatus.ready
      → Moves k w none (some RunStatus.ready)
      → Moves k w (status_in k runs) (status_in k (runs ++ s ∷ []))
  unfolding find
  append-Moves s e appears = rw (find-append run_key k runs (s ∷ [])) (go (find run_key k runs))
    where
      go :
          (o : Option RunModel)
          → Moves k w (Option.map (λ r. r.status) o) (
              Option.map
                (λ r. r.status)
                (elim o [ none ↦ find run_key k (s ∷ []) | some r ↦ some r ]))
      go none = elim (Bool-cases (s.id == k)) [
        | inl hit ↦ rw (hit, e) appears
        | inr miss ↦ rw miss stays
      ]
      go (some r) = stays

module _ (w : Write) (k : ℕ) where
  pub same-Moves : (db db' : Db) → db'.runs ≡ db.runs → Moves k w (status_of k db) (status_of k db')
  same-Moves db db' e = rw e stays

  -- A deletion, of tables whose keys are distinct.
  pub select-Moves :
      {db : Db}
      → IsValid db
      → (p : RunModel → Bool)
      → ((r : RunModel) → run_key r ≡ k → p r ≡ false → Moves k w (some r.status) none)
      → Moves k w (status_of k db) (status_in k (select p db.runs))
  select-Moves {db} v p gone =
      rw (find-select run_key k p db.runs v.run_ids) (go (find run_key k db.runs) refl)
    where
      go :
          (o : Option RunModel)
          → find run_key k db.runs ≡ o
          → Moves k w (Option.map (λ r. r.status) o) (Option.map (λ r. r.status) (kept p o))
      go none _ = stays
      go (some r) found = elim (Bool-cases (p r)) [
        | inl e ↦ rw e stays
        | inr e ↦ rw e (gone r (key-find run_key k db.runs r found) e)
      ]
