-- ===== src/Migrations/Repeated.antt =====
-- SQLAlchemyBackend.migrate (pyreljob/backends/sqlalchemy.py), called again with the list of
-- pyreljob/migrations/versions.py.
use pyreljob.Migrations.Resume.{up-again}
use pyreljob.Migrations.Schema.{Schema, Connection}
use pyreljob.Migrations.Steps.{all_migrations, migrate, descriptions}
use pyreljob.Migrations.Versions.{Apart}
use pyreljob.Migrations.{Migration, Store, up}
use pyreljob.Prelude.{
  ℕ, Bool, true, not, ◌&&◌, ◌==◌, ◌≢◌, All, ◌≡◌, ◌∙◌, refl, ap, none, some, String, List, [], ◌∷◌,
  Option-cases, inl, inr, arith,
}

are_others : ℕ → List (Migration Schema) → Bool
are_others v [] = true
are_others v (m ∷ ms) = not (v == m.version) && are_others v ms

are_apart : List (Migration Schema) → Bool
unfolding are_others
are_apart [] = true
are_apart (m ∷ ms) = are_others m.version ms && are_apart ms

All-are_others :
    (v : ℕ) (ms : List (Migration Schema)) → are_others v ms ≡ true → All (λ n. v ≢ n.version) ms
unfolding are_others
All-are_others v [] e = tt
All-are_others v (m ∷ ms) e =
    (λ same. ground (arith, e, same), All-are_others v ms (ground (arith, e)))

Apart-are_apart : (ms : List (Migration Schema)) → are_apart ms ≡ true → Apart ms
unfolding are_apart
Apart-are_apart [] e = tt
Apart-are_apart (m ∷ ms) e =
    (All-are_others m.version ms (ground (arith, e)), Apart-are_apart ms (ground (arith, e)))

all_migrations-Apart : (conn : Connection) → Apart (all_migrations conn)
unfolding are_apart are_others all_migrations
all_migrations-Apart conn = Apart-are_apart (all_migrations conn) refl

-- Whatever migrate ran on, once it has returned, another migrate applies nothing and changes nothing.
pub migrate-again :
    (conn : Connection) (st st' : Store Schema) (applied : List String)
    → migrate conn st ≡ (some applied, st')
    → migrate conn st' ≡ (some [], st')
unfolding migrate
migrate-again conn st st' applied e = elim (Option-cases (up (all_migrations conn) none st).0) [
  | inl raised ↦ absurd (ground (arith, rw raised at (ap (λ x. x.0) e)))
  | inr (ms, fine) ↦
      let done : up (all_migrations conn) none st ≡ (some ms, st') =
        ap (λ o. (o, (up (all_migrations conn) none st).1)) fine
        ∙ ap (λ s. (some ms, s)) (ap (λ x. x.1) e) in
      let nothing = up-again (all_migrations conn) st st' ms (all_migrations-Apart conn) done in
      ap (λ x. (descriptions x.0, x.1)) nothing
]
