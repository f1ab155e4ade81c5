-- ===== src/Task/Resolve/Named.antt =====
-- The name that job_name gives to a class, and what _resolve makes of it (pyreljob/task.py).
use pyreljob.Task.Resolve.{
  is_dot, split, join, imported, import_error, Python, attribute, class_of, resolve_from,
  resolve_class, job_name,
}
use Prim.Native.Char.{Char}
use Prim.Native.String.{String, ◌++◌ as joined}
use Prim.Native.String.append.{nil, cons}
use pyreljob.Models.{ok}
use pyreljob.Prelude.{
  ℕ, zero, suc, ◌+◌, ◌-◌, ◌<◌, ◌≤◌, ◌==◌, ◌≡◌, ◌∙◌, refl, sym, ap, subst, true, some, List, [], ◌∷◌,
  ◌++◌, length, take, drop, str_eq_iff, inl, inr, Bool-cases, arith,
}

split-cons : (s : String) → (p : String) × (ps : List String) × (split s ≡ p ∷ ps)
unfolding split
split-cons String.[] = ("", [], refl)
split-cons (String.◌∷◌ c s) =
    let (p, ps, e) = split-cons s in
    elim (Bool-cases (is_dot c)) [
      | inl h ↦ ("", split s, rw h refl)
      | inr h ↦ (String.◌∷◌ c p, ps, rw (h, e) refl)
    ]

-- A path is split at the dot between a module's name and the rest.
split-append : (s t : String) → split (joined s (String.◌∷◌ "." t)) ≡ split s ++ split t
unfolding split
split-append String.[] t = rw (nil (String.◌∷◌ "." t)) refl
split-append (String.◌∷◌ c s) t =
    let (p, ps, e) = split-cons s in
    rw (cons c s (String.◌∷◌ "." t)) (elim (Bool-cases (is_dot c)) [
      | inl h ↦ rw (h, split-append s t) refl
      | inr h ↦ rw (h, split-append s t, e) refl
    ])

dot-cons : (c : Char) (s : String) → is_dot c ≡ true → String.◌∷◌ c s ≡ String.◌∷◌ "." s
dot-cons c s h =
    let here : String.◌∷◌ c "" ≡ "." = (str_eq_iff (String.◌∷◌ c "") ".").0 h in
    sym (cons c "" s ∙ ap (String.◌∷◌ c) (nil s))
    ∙ ap (λ x. joined x s) here
    ∙ (cons "." "" s ∙ ap (String.◌∷◌ ".") (nil s))

join-onto :
    (c : Char) (p : String) (ps : List String)
    → join (String.◌∷◌ c p ∷ ps) ≡ String.◌∷◌ c (join (p ∷ ps))
unfolding join
join-onto c p [] = refl
join-onto c p (q ∷ ps) = cons c p (String.◌∷◌ "." (join (q ∷ ps)))

join-split : (s : String) → join (split s) ≡ s
unfolding split join
join-split String.[] = refl
join-split (String.◌∷◌ c s) =
    let (p, ps, e) = split-cons s in
    let same : join (p ∷ ps) ≡ s = rw (← e) (join-split s) in
    elim (Bool-cases (is_dot c)) [
      | inl h ↦ rw (h, e, nil (String.◌∷◌ "." (join (p ∷ ps))), same) (sym (dot-cons c s h))
      | inr h ↦ rw (h, e, join-onto c p ps, same) refl
    ]

length-split : (s : String) → 1 ≤ length (split s)
length-split s = let (p, ps, e) = split-cons s in rw e (omega arith)

length-append {ℓ} : {A : Type ℓ} (xs ys : List A) → length (xs ++ ys) ≡ length xs + length ys
length-append [] ys = ground arith
length-append (x ∷ xs) ys = ground (arith, length-append xs ys)

take-length {ℓ} : {A : Type ℓ} (xs ys : List A) → take (length xs) (xs ++ ys) ≡ xs
take-length [] ys = refl
take-length (x ∷ xs) ys = ap (λ zs. x ∷ zs) (take-length xs ys)

drop-length {ℓ} : {A : Type ℓ} (xs ys : List A) → drop (length xs) (xs ++ ys) ≡ ys
drop-length [] ys = refl
drop-length (x ∷ xs) ys = drop-length xs ys

module _ {Object Class : Type 0} (python : Python Object Class) where
  -- Names that cannot be imported are passed over.
  resolve_from-down :
      (n i : ℕ) (parts : List String)
      → i ≤ n
      → ((j : ℕ) → i < j → j ≤ n → python.import_module (join (take j parts)) ≡ import_error)
      → resolve_from python n parts ≡ resolve_from python i parts
  unfolding resolve_from
  resolve_from-down zero i parts below h =
      ap (λ x. resolve_from python x parts) {x = 0} {y = i} (omega (arith, below))
  resolve_from-down (suc n) i parts below h = elim (Bool-cases (i == suc n)) [
    | inl e ↦ ap (λ x. resolve_from python x parts) {x = suc n} {y = i} (ground (arith, e))
    | inr e ↦
        rw (resolve_from, h (suc n) (ground (arith, e, below)) (omega arith))
          (resolve_from-down n i parts (ground (arith, e, below))
            (λ j less most. h j less (omega (arith, most))))
  ]

  resolve_from-found :
      (i : ℕ) (parts : List String) (obj : Object)
      → 1 ≤ i
      → python.import_module (join (take i parts)) ≡ imported obj
      → resolve_from python i parts ≡ ok (class_of python (attribute python obj (drop i parts)))
  unfolding resolve_from
  resolve_from-found zero parts obj positive e = absurd (omega (arith, positive))
  resolve_from-found (suc i) parts obj positive e = rw (resolve_from, e) refl

  -- The name of a class resolves to the class: where its module can be imported, the attributes lead
  -- from there to an object that is a class below the base, and no longer path before the class itself
  -- can be imported.
  pub resolve_class-job_name :
      (mod_name qualname : String) (mod_obj obj : Object) (cls : Class)
      → python.import_module mod_name ≡ imported mod_obj
      → attribute python mod_obj (split qualname) ≡ some obj
      → python.subclass obj ≡ some cls
      → ((j : ℕ)
          → length (split mod_name) < j
          → j < length (split (job_name mod_name qualname))
          → python.import_module (join (take j (split (job_name mod_name qualname))))
            ≡ import_error)
      → resolve_class python (job_name mod_name qualname) ≡ ok (some cls)
  unfolding resolve_class
  resolve_class-job_name mod_name qualname mod_obj obj cls found leads is_class others =
      let parts = split mod_name ++ split qualname in
      let size = length-append (split mod_name) (split qualname) in
      let long = length-split mod_name in
      let rest = length-split qualname in
      let cut = split-append mod_name qualname in
      let errors =
        subst
          (λ xs.
            (j : ℕ)
            → length (split mod_name) < j
            → j < length xs
            → python.import_module (join (take j xs)) ≡ import_error)
          cut others in
      let reached =
        resolve_from-down (length parts - 1) (length (split mod_name)) parts
          (omega (arith, size, rest))
          (λ j less most. errors j less (omega (arith, most, size, rest))) in
      let there = resolve_from-found (length (split mod_name)) parts mod_obj long (
        ap python.import_module
          (ap join (take-length (split mod_name) (split qualname)) ∙ join-split mod_name)
        ∙ found) in
      rw cut (
        reached
        ∙ there
        ∙ rw (drop-length (split mod_name) (split qualname), leads) (ap ok is_class))
