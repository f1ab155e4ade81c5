-- ===== src/Effects.antt =====
-- Calls that run several transactions and may raise. What was committed before a raise stays.
use pyreljob.Models.{Db, Error, Result, ok, raised}
use pyreljob.Prelude.{ℕ}

-- A call of the backend: from the database to a result, or an exception, and the database.
abbrev pub Call : Type 0 → Type 0
Call A = Db → Result A × Db

-- What the other clients commit just before transaction number k of a call.
abbrev pub Others : Type 0
Others = ℕ → Db → Db

-- Nobody else writes.
abbrev pub alone : Others
alone k db = db

abbrev pub pure : {A : Type 0} → A → Call A
pure a db = (ok a, db)

abbrev pub raise : {A : Type 0} → Error → Call A
raise e db = (raised e, db)

abbrev pub continue : {A B : Type 0} → Result A → (A → Call B) → Call B
continue (ok a) f db = f a db
continue (raised e) f db = (raised e, db)

infixl 10 ◌>>=◌ ◌>>◌
abbrev pub ◌>>=◌ : {A B : Type 0} → Call A → (A → Call B) → Call B
◌>>=◌ m f db = let (r, db') = m db in continue r f db'

abbrev pub ◌>>◌ : {A B : Type 0} → Call A → Call B → Call B
m >> n = m >>= λ _. n

-- Transaction number k, which only reads.
abbrev pub reading : {A : Type 0} → Others → ℕ → (Db → Result A) → Call A
reading others k f db = (f (others k db), others k db)

-- A transaction that raises is rolled back.
abbrev pub committed : {A : Type 0} → Db → Result (A × Db) → Result A × Db
committed db (ok (a, db')) = (ok a, db')
committed db (raised e) = (raised e, db)

abbrev pub writing : {A : Type 0} → Others → ℕ → (Db → Result (A × Db)) → Call A
writing others k f db = committed (others k db) (f (others k db))

-- except IntegrityError
abbrev pub handle : {A : Type 0} → Result A → Call A → Call A
handle (raised Error.integrity_error) handler db = handler db
handle r handler db = (r, db)

abbrev pub except_integrity : {A : Type 0} → Call A → Call A → Call A
except_integrity m handler db = let (r, db') = m db in handle r handler db'
