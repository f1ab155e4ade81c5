-- ===== src/Worker/Start.antt =====
-- Where an execution starts: the first task that has not succeeded.
use pyreljob.Models.{TaskRecord}
use pyreljob.Prelude.{
  ==_iff, ℕ, zero, suc, ◌+◌, ◌≡◌, subst, arith, true, false, List, [], ◌∷◌, inl, inr, leb, ltb,
  ◌==◌, length, drop, Bool-cases,
}
use pyreljob.Task.{TaskClass}
use pyreljob.Worker.Execute.{record_at, first_open, is_open}

pub first_open-leb :
    (ts : List TaskClass) (i : ℕ) (records : List TaskRecord)
    → leb (first_open ts i records) (i + length ts) ≡ true
unfolding first_open
first_open-leb [] i records = ground arith
first_open-leb (t ∷ ts) i records = ground (arith, first_open-leb ts (suc i) records)

-- The task there has not succeeded.
pub first_open-open :
    (ts : List TaskClass) (i : ℕ) (records : List TaskRecord)
    → ltb (first_open ts i records) (i + length ts) ≡ true
    → is_open (record_at (first_open ts i records) records) ≡ true
unfolding first_open
first_open-open [] i records h = absurd (ground (arith, h))
first_open-open (t ∷ ts) i records h = elim (Bool-cases (is_open (record_at i records))) [
  | inl e ↦ rw (e, e) (ground arith)
  | inr e ↦ rw e (first_open-open ts (suc i) records (ground (arith, h, e)))
]

-- Every task before it has succeeded.
pub first_open-closed :
    (ts : List TaskClass) (i : ℕ) (records : List TaskRecord) (p : ℕ)
    → leb i p ≡ true
    → ltb p (first_open ts i records) ≡ true
    → is_open (record_at p records) ≡ false
unfolding first_open
first_open-closed [] i records p h k = absurd (ground (arith, h, k))
first_open-closed (t ∷ ts) i records p h k = elim (Bool-cases (is_open (record_at i records))) [
  | inl e ↦ absurd (ground (arith, h, k, e))
  | inr e ↦ elim (Bool-cases (i == p)) [
    | inl same ↦ subst (λ q. is_open (record_at q records) ≡ false) ((==_iff i p).0 same) e
    | inr later ↦
        first_open-closed ts (suc i) records p (ground (arith, h, later)) (ground (arith, k, e))
  ]
]

pub length-drop :
    {A : Type 0} (k : ℕ) (xs : List A)
    → leb k (length xs) ≡ true
    → length (drop k xs) + k ≡ length xs
length-drop zero xs h = ground arith
length-drop (suc k) [] h = absurd (ground (arith, h))
length-drop (suc k) (x ∷ xs) h = ground (arith, h, length-drop k xs)
