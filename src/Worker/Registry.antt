-- ===== src/Worker/Registry.antt =====
-- pyreljob/worker.py: the registry of a worker, a dict from names to job classes, and _resolve, which
-- keeps in it what it has imported.
use pyreljob.Prelude.{
  String, ◌≡◌, ◌∙◌, refl, sym, ap, subst, true, Option, none, some, List, [], ◌∷◌, map, str_eq,
  str_eq_iff, if◌then◌else◌, inl, inr, Bool-cases, Option-cases, arith,
}
use pyreljob.Task.{JobClass}
use pyreljob.Worker.Action.{Env}
use pyreljob.Worker.Execute.{resolve}

abbrev pub Registry : Type 0
Registry = List (String × JobClass)

-- dict.get
unfoldable pub lookup : String → Registry → Option JobClass
lookup name [] = none
lookup name ((k, c) ∷ rest) = if str_eq k name then some c else lookup name rest

-- `registry[name] = cls`
unfoldable pub register : String → JobClass → Registry → Registry
register name cls [] = (name, cls) ∷ []
register name cls ((k, c) ∷ rest) =
    let rest' = register name cls rest in if str_eq k name then (k, cls) ∷ rest else (k, c) ∷ rest'

abbrev pub kept : String → Registry → Option JobClass → Option JobClass × Registry
unfolding register
kept name reg none = (none, reg)
kept name reg (some cls) = (some cls, register name cls reg)

-- _resolve, with the registry before and after it.
unfoldable pub resolve_kept :
    (String → Option JobClass) → String → Registry → Option JobClass × Registry
unfolding lookup kept
resolve_kept resolve_job name reg = elim (lookup name reg) [
  | some cls ↦ (some cls, reg)
  | none ↦ kept name reg (resolve_job name)
]

-- Several calls, one after the other.
unfoldable pub resolve_each :
    (String → Option JobClass) → List String → Registry → List (Option JobClass) × Registry
unfolding resolve_kept
resolve_each resolve_job [] reg = ([], reg)
resolve_each resolve_job (name ∷ names) reg =
    let (found, reg') = resolve_kept resolve_job name reg in
    let (others, last) = resolve_each resolve_job names reg' in (found ∷ others, last)

-- What a name resolves to, given what the registry has for it.
abbrev pub or_imported : (String → Option JobClass) → String → Option JobClass → Option JobClass
or_imported resolve_job name none = resolve_job name
or_imported resolve_job name (some cls) = some cls

str_eq-same : (a b c : String) → str_eq a b ≡ true → str_eq a c ≡ str_eq b c
str_eq-same a b c e = ap (λ x. str_eq x c) ((str_eq_iff a b).0 e)

lookup-register :
    (n name : String) (cls : JobClass) (reg : Registry)
    → lookup n (register name cls reg) ≡ (if str_eq name n then some cls else lookup n reg)
unfolding lookup register
lookup-register n name cls [] = refl
lookup-register n name cls ((k, c) ∷ rest) = elim (Bool-cases (str_eq k name)) [
  | inl e ↦
      rw (e, str_eq-same k name n e)
        (elim (Bool-cases (str_eq name n)) [ inl h ↦ rw h refl | inr h ↦ rw h refl ])
  | inr e ↦ rw e (elim (Bool-cases (str_eq k n)) [
    | inl h ↦ elim (Bool-cases (str_eq name n)) [
      | inl g ↦
          let same : k ≡ name = (str_eq_iff k n).0 h ∙ sym ((str_eq_iff name n).0 g) in
          absurd (ground (arith, e, (str_eq_iff k name).1 same))
      | inr g ↦ rw (h, g) refl
    ]
    | inr h ↦ rw h (lookup-register n name cls rest)
  ])
]

-- The answers that are yet to come do not depend on the calls before.
or_imported-resolve_kept :
    (resolve_job : String → Option JobClass) (name n : String) (reg : Registry)
    → ((resolve_kept resolve_job name reg).0 ≡ or_imported resolve_job name (lookup name reg))
      × (or_imported resolve_job n (lookup n (resolve_kept resolve_job name reg).1)
          ≡ or_imported resolve_job n (lookup n reg))
unfolding resolve_kept
or_imported-resolve_kept resolve_job name n reg = elim (Option-cases (lookup name reg)) [
  | inr (cls, e) ↦ rw (resolve_kept, e) (refl, refl)
  | inl e ↦ elim (Option-cases (resolve_job name)) [
    | inl f ↦ rw (resolve_kept, e, f) (refl, refl)
    | inr (cls, f) ↦
        rw (resolve_kept, e, f)
          (
            refl,
            rw (lookup-register n name cls reg) (elim (Bool-cases (str_eq name n)) [
              | inl h ↦ rw h (
                  subst (λ x. some cls ≡ or_imported resolve_job x (lookup x reg))
                    ((str_eq_iff name n).0 h) (rw (e, f) refl))
              | inr h ↦ rw h refl
            ]),
          )
  ]
]

resolve_each-answers :
    (resolve_job : String → Option JobClass) (answer : String → Option JobClass)
    (names : List String) (reg : Registry)
    → ((n : String) → or_imported resolve_job n (lookup n reg) ≡ answer n)
    → (resolve_each resolve_job names reg).0 ≡ map answer names
unfolding resolve_each
resolve_each-answers resolve_job answer [] reg h = refl
resolve_each-answers resolve_job answer (name ∷ names) reg h =
    let now = or_imported-resolve_kept resolve_job name name reg in
    rw
      (
        now.0 ∙ h name,
        resolve_each-answers resolve_job answer names (resolve_kept resolve_job name reg).1
            (λ n. (or_imported-resolve_kept resolve_job name n reg).1 ∙ h n),
      )
      refl

-- However many names a worker has resolved before, with the classes that it then keeps, the next ones
-- resolve to what they would resolve to without: the class registered at the start, or else the
-- imported one.
pub resolve_each-resolve :
    (env : Env) (names : List String) (reg : Registry)
    → ((n : String) → env.registry n ≡ lookup n reg)
    → (resolve_each env.resolve_job names reg).0 ≡ map (resolve env) names
unfolding resolve
resolve_each-resolve env names reg h =
    resolve_each-answers env.resolve_job (resolve env) names reg (λ n.
      elim (Option-cases (lookup n reg)) [
        | inl e ↦ rw (resolve, h n, e) refl
        | inr (cls, e) ↦ rw (resolve, h n, e) refl
      ])
