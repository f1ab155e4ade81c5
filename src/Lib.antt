-- ===== src/Lib.antt =====
-- pyreljob is a job queue in a relational database. A job is a row of the table jobs, each of its
-- invocations a row of runs, each execution of one of its tasks a row of tasks. Clients enqueue jobs and
-- register maintained ones, workers claim runs under a lease and report what became of them, and a beat
-- fires the maintained jobs that are due and recovers the runs that nobody executed. All of them meet in
-- the database only, through the backend.
--
-- The parts, and where they are modelled:
--   * pyreljob/models/orm.py and pyreljob/job.py, the rows, statuses and records: Models.
--   * SQL statements (SELECT, UPDATE, DELETE, ORDER BY, rowcount) over lists of rows: Sql, whose laws are
--     in the modules below it. A table is a list of rows, an UPDATE a test and a function, and a
--     comparison with NULL is false.
--   * pyreljob/backends/sqlalchemy.py, one function for each method, under the method's name:
--     Backend/Jobs (enqueue, schedule, get, cancel_job, attempts), Backend/Cleanup (delete_job,
--     prune_runs), Backend/Claim (claim), Backend/Runs (the transitions of a run), Backend/Tasks,
--     Backend/Beat (claim_scheduled, list_scheduled, set_next_run_at), Backend/Reconcile
--     (reconcile_abandoned), Backend/Lists (the listings).
--   * pyreljob/backends/postgres.py: pg_claim in Backend/Claim.
--   * pyreljob/manager.py: Manager, the beat, which calls Backend/Beat, Backend/Runs and
--     Backend/Reconcile, and Manager/Api, which checks job objects (validate_job of pyreljob/task.py) and
--     calls Backend/Jobs and Backend/Cleanup.
--     Manager/Undo is JobManager.undo.
--   * pyreljob/task.py: Task, the context that flows through the tasks of a run, and what the framework
--     asks of the classes that users write. Task/Resolve has job_name and _resolve.
--   * pyreljob/worker.py: Worker/Execute (_execute, _run, _build_ctx, _resolve), Worker/Attempt
--     (_run_task), Worker/Failure (_compensate, _finalize_failed, _reschedule), Worker/Poll (_poll_once)
--     and Worker/Heartbeat (a round of _heartbeat_loop). Worker/Action has the effects of a coroutine,
--     Worker/Tick is _tick and Worker/Registry the dict of registered classes,
--     Worker/Rules and Worker/Frame have the rules to reason about them.
--   * pyreljob/migrations/runner.py: Migrations. The database without the table schema_migrations is a
--     type of its own, and a migration a function on it that may raise.
--   * pyreljob/migrations/versions.py: Migrations/Schema has tables as the steps see them,
--     Migrations/Statements the DDL and the statements, Migrations/Steps the ten steps, MIGRATIONS and
--     SQLAlchemyBackend.migrate, and Migrations/Steps/Entities the fourth of them. Migrations/Legacy
--     describes a database of version 3, and the columns that pyreljob/models/orm.py maps.
--   * Backend/Validity says what holds of the tables at all times, and Backend/History has the
--     transactions that write as values, so that the work of many clients is a list of them.
--   * Samples has a small database, and Witnesses applies the theorems to it.
--
-- Choices of the model:
--   * A transaction takes effect at once. A method of several transactions takes an argument of the type
--     Others: what the other clients commit just before each of them. `alone` says that nobody else
--     writes. A raised exception is a value, and rolls its transaction back.
--   * An instant is a number of microseconds since datetime.min, in UTC, and a difference below it is 0
--     (the code raises OverflowError there). A method reads the clock several times: its argument of the
--     type Readings answers each of those calls.
--   * The database gives a new row its primary key and creation time: an argument of the type Inserted.
--     Theorems that need the key to be fresh say so.
--   * attempts, retries and positions are natural numbers, priority is an integer. A JSON column gives
--     back the value that was stored.
--   * The loop of reconcile_abandoned takes fuel. Each round fails at least one stale run or is the last
--     one, so the number of stale runs and one more is enough.
--   * The attribute last_claim_at of a backend object is passed along.
--   * A coroutine of the worker is a sequence of calls of the backend from a World to a World. Each call
--     is one step; what other clients, and the other coroutines of the worker, commit before it is a
--     parameter of Env. The other coroutines' entries in the table of active runs are left out.
--   * The code of users is a function of the step and the context: what a task reports, what it leaves
--     of the context, and how it ends, a timeout and a cancellation included. It may do something else
--     at each step. The random delay of _backoff is a parameter, and so are int(…) and repr(…).
--   * The loop of _poll_once takes a number of rounds. Each of them fills a free place or is the last one,
--     so as many as there are free places is enough.
--   * What other clients commit between the transactions of the beat stands in Moment, for each job that
--     it looks at.
--   * In the migrations a table is a list of columns with their defaults, and rows that give a value for
--     each name. The types of columns and NOT NULL are left out. PostgreSQL drops the indexes on a column
--     with it and SQLite refuses; SQLite refuses to add a column with a default that is not a constant
--     to a table with rows. The key of the first backfilled run is a parameter.
--   * The LIKE test of a tag in a listing, and the row locks of other transactions in pg_claim, are
--     parameters.
--
-- Not modelled: the loops, signals and sleeps around _poll_once, _heartbeat_loop and the beat's tick,
-- Job.as_dict and Job.from_dict (pyreljob/task.py), which read the fields of a dataclass, and the
-- construction of engines and sessions, which is SQLAlchemy's.
pub mod Prelude
pub mod Sql
pub mod Json
pub mod Models
pub mod Effects
pub mod Task
pub mod Backend
pub mod Manager
pub mod Migrations
pub mod Worker
pub mod Samples
pub mod Witnesses
