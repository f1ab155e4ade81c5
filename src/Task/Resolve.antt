-- ===== src/Task/Resolve.antt =====
-- pyreljob/task.py: the dotted path of a class, and the search for the class that a path names. What
-- importlib and getattr answer are parameters.
pub mod Named
use Prim.Native.Char.{Char}
use Prim.Native.String
use Prim.Native.String.{String, ◌++◌ as joined}
use Prim.Native.String.append.{nil, cons}
use pyreljob.Models.{Error, Result, ok, raised}
use pyreljob.Prelude.{
  ℕ, zero, suc, ◌+◌, ◌-◌, ◌<◌, ◌≤◌, ◌==◌, ◌≡◌, ◌∙◌, refl, sym, ap, subst, Bool, true, false, Option,
  none, some, List, [], ◌∷◌, ◌++◌, length, take, drop, str_eq, str_eq_iff, if◌then◌else◌, inl, inr,
  Bool-cases, arith,
}

abbrev pub is_dot : Char → Bool
is_dot c = str_eq (String.◌∷◌ c "") "."

abbrev pub onto : Char → List String → List String
onto c [] = String.◌∷◌ c "" ∷ []
onto c (p ∷ ps) = String.◌∷◌ c p ∷ ps

-- name.split(".")
unfoldable pub split : String → List String
split String.[] = "" ∷ []
split (String.◌∷◌ c s) = let rest = split s in if is_dot c then "" ∷ rest else onto c rest

-- ".".join(parts)
unfoldable pub join : List String → String
join [] = ""
join (p ∷ []) = p
join (p ∷ q ∷ ps) = joined p (String.◌∷◌ "." (join (q ∷ ps)))

-- import_module returns a module, raises ImportError, or raises what the module raises.
pub data Imported (Object : Type 0) : Type 0 where
  imported : Object → Imported Object
  import_error : Imported Object
  failed : Error → Imported Object

-- import_module, getattr (none is AttributeError), and `isinstance(obj, type) and issubclass(obj, base)`.
pub record Python (Object Class : Type 0) : Type 0 where
  pub import_module : String → Imported Object
  pub getattr : Object → String → Option Object
  pub subclass : Object → Option Class

module _ {Object Class : Type 0} (python : Python Object Class) where
  -- The loop over `parts[i:]`.
  unfoldable pub attribute : Object → List String → Option Object
  attribute obj [] = some obj
  attribute obj (attr ∷ attrs) = elim (python.getattr obj attr) [
    | none ↦ none
    | some obj' ↦ attribute obj' attrs
  ]

  abbrev pub class_of : Option Object → Option Class
  class_of none = none
  class_of (some obj) = python.subclass obj

  -- The loop over `i`, from the number of parts that the module's name may have at most.
  unfoldable pub resolve_from : ℕ → List String → Result (Option Class)
  unfolding join attribute
  resolve_from zero parts = ok none
  resolve_from (suc i) parts = elim (python.import_module (join (take (suc i) parts))) [
    | imported obj ↦ ok (class_of (attribute obj (drop (suc i) parts)))
    | import_error ↦ resolve_from i parts
    | failed e ↦ raised e
  ]

  -- _resolve
  unfoldable pub resolve_class : String → Result (Option Class)
  unfolding split resolve_from
  resolve_class name = let parts = split name in resolve_from (length parts - 1) parts

-- The name that job_name gives to a class of this module, with this qualified name.
abbrev pub job_name : String → String → String
job_name mod_name qualname = joined mod_name (String.◌∷◌ "." qualname)
