-- ===== src/Worker/Heartbeat/Told.antt =====
-- Which runs a round of _heartbeat_loop tells of the cancellation of their job.
use pyreljob.Backend.Jobs.{get, is_job_cancelled}
use pyreljob.Backend.Runs.{renew_lease}
use pyreljob.Models.{Readings, Db, ok}
use pyreljob.Prelude.{
  ==_iff, ℕ, suc, String, ◌≡◌, refl, ◌∙◌, arith, Bool, true, List, [], ◌∷◌, ◌++◌, ◌⊎◌, inl, inr,
  ◌==◌, ◌&&◌, All, All-map_mono, Bool-cases,
}
use pyreljob.Sql.{exists, is_in}
use pyreljob.Sql.Rows.{All-append}
use pyreljob.Sql.Exists.{is_in-append}
use pyreljob.Worker.Action.{Env, World, read, transact}
use pyreljob.Worker.Execute.{pop_active}
use pyreljob.Worker.Heartbeat.{beat_one, beat_all}

-- The entry is of this run, and its job is cancelled.
abbrev pub is_stopped : ℕ → Db → ℕ × ℕ → Bool
is_stopped run_id db e = (e.0 == run_id) && is_job_cancelled e.1 db

renew_lease-cancelled :
    (run_id : ℕ) (worker_id : String) (now : Readings) (job_id : ℕ) (db : Db)
    → is_job_cancelled job_id (renew_lease run_id worker_id now db).1 ≡ is_job_cancelled job_id db
unfolding renew_lease is_job_cancelled get
renew_lease-cancelled run_id worker_id now job_id db = refl

-- A job that is cancelled stays so, whatever the others commit.
abbrev pub Lasts : Env → Type 0
Lasts env =
    (k job_id : ℕ) (db : Db)
    → is_job_cancelled job_id db ≡ true
    → is_job_cancelled job_id (env.others k db) ≡ true

-- Of the entries, the runs that were told are those whose job is cancelled after the round, and every
-- one whose job was cancelled before it is among them.
pub record AreTold (entries : List (ℕ × ℕ)) (before after : Db) (told : List ℕ) : Type 0 where
  pub all : All (λ e. is_job_cancelled e.1 before ≡ true → is_in e.0 told ≡ true) entries
  pub only : All (λ run_id. exists (is_stopped run_id after) entries ≡ true) told

module _ (run_id job_id : ℕ) (rest : List (ℕ × ℕ)) (before mid after : Db) (now more : List ℕ) where
  cons-AreTold :
      (is_job_cancelled job_id before ≡ true → now ≡ run_id ∷ [])
      → ((now ≡ []) ⊎ ((now ≡ run_id ∷ []) × (is_job_cancelled job_id mid ≡ true)))
      → ((i : ℕ) → is_job_cancelled i before ≡ true → is_job_cancelled i mid ≡ true)
      → ((i : ℕ) → is_job_cancelled i mid ≡ true → is_job_cancelled i after ≡ true)
      → AreTold rest mid after more
      → AreTold ((run_id, job_id) ∷ rest) before after (now ++ more)
  unfolding is_in exists
  cons-AreTold told_now only_now lasting lasting' later = record {
    all = (
      λ h. rw (told_now h) (ground (arith, ==_iff run_id run_id)),
      All-map_mono (λ e g h. ground (arith, is_in-append e.0 now more, g (lasting e.1 h))) rest
          later.all,
    );
    only =
        All-append (λ id. exists (is_stopped id after) ((run_id, job_id) ∷ rest) ≡ true) now more
          here (All-map_mono (λ id g. ground (arith, g)) more later.only);
  }
    where
      here : All (λ id. exists (is_stopped id after) ((run_id, job_id) ∷ rest) ≡ true) now
      here = elim only_now [
        | inl e ↦ rw e tt
        | inr (e, c) ↦ rw e (ground (arith, ==_iff run_id run_id, lasting' job_id c), tt)
      ]

module _ (env : Env) (worker_id : String) (lasts : Lasts env) where
  -- What one entry of the table comes to: its run is told if the job was cancelled, and only then.
  beat_one-told :
      (run_id job_id : ℕ) (w : World)
      → (now : List ℕ) × ((beat_one env worker_id run_id job_id w).0 ≡ ok now)
        × (is_job_cancelled job_id w.db ≡ true → now ≡ run_id ∷ [])
        × ((now ≡ [])
            ⊎ ((now ≡ run_id ∷ [])
                × (is_job_cancelled job_id (beat_one env worker_id run_id job_id w).1.db ≡ true)))
        × ((i : ℕ)
            → is_job_cancelled i w.db ≡ true
            → is_job_cancelled i (beat_one env worker_id run_id job_id w).1.db ≡ true)
  unfolding beat_one read transact pop_active
  beat_one-told run_id job_id w = elim (Bool-cases (is_job_cancelled job_id before)) [
    | inl cancelled ↦
        rw cancelled
          (run_id ∷ [], refl, λ h. refl, inr (refl, cancelled), λ i h. lasts w.step i w.db h)
    | inr going_on ↦ elim (Bool-cases answer.0) [
      | inl renewed ↦
          rw (going_on, renewed)
            (
              [],
              refl,
              λ h. absurd (ground (arith, going_on, lasts w.step job_id w.db h)),
              inl refl,
              stays,
            )
      | inr lost ↦
          rw (going_on, lost)
            (
              [],
              refl,
              λ h. absurd (ground (arith, going_on, lasts w.step job_id w.db h)),
              inl refl,
              stays,
            )
    ]
  ]
    where
      before : Db
      before = env.others w.step w.db

      answer : Bool × Db
      answer =
          renew_lease run_id worker_id (env.clock (suc w.step)) (env.others (suc w.step) before)

      stays : (i : ℕ) → is_job_cancelled i w.db ≡ true → is_job_cancelled i answer.1 ≡ true
      stays i h =
          renew_lease-cancelled run_id worker_id (env.clock (suc w.step)) i
            (env.others (suc w.step) before)
          ∙ lasts (suc w.step) i before (lasts w.step i w.db h)

  pub beat_all-AreTold :
      (entries : List (ℕ × ℕ)) (w : World)
      → (told : List ℕ) × ((beat_all env worker_id entries w).0 ≡ ok told)
        × AreTold entries w.db (beat_all env worker_id entries w).1.db told
        × ((i : ℕ)
            → is_job_cancelled i w.db ≡ true
            → is_job_cancelled i (beat_all env worker_id entries w).1.db ≡ true)
  unfolding beat_all
  beat_all-AreTold [] w = ([], refl, record { all = tt; only = tt }, λ i h. h)
  beat_all-AreTold ((run_id, job_id) ∷ rest) w =
      let w' = (beat_one env worker_id run_id job_id w).1 in
      let (now, e, told_now, only_now, lasting) = beat_one-told run_id job_id w in
      let (more, e', later, lasting') = beat_all-AreTold rest w' in
      rw (e, e')
        (
          now ++ more,
          refl,
          cons-AreTold run_id job_id rest w.db w'.db (beat_all env worker_id rest w').1.db now more
              told_now only_now lasting lasting' later,
          λ i h. lasting' i (lasting i h),
        )
