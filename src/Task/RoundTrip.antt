-- ===== src/Task/RoundTrip.antt =====
-- What a context is after it was stored in a run and read back.
use pyreljob.Json.{Json}
use pyreljob.Json.Values.{empty_obj, or_default, truthy, get_item, to_int}
use pyreljob.Models.{Result, ok}
use pyreljob.Prelude.{
  zero, suc, String, false, ◌≡◌, refl, none, ℤ, pos, negsuc, arith, Bool-cases, inl, inr,
}
use pyreljob.Task.{TaskContext, new_context, as_dict, from_dict}

-- A falsy job name, args, results or state comes back as an empty one; the progress and the flag for
-- cancellation are not stored.
abbrev pub restored : TaskContext → TaskContext
restored ctx = record {
  job_id = ctx.job_id;
  job = or_default ctx.job (Json.text "");
  args = or_default ctx.args empty_obj;
  results = or_default ctx.results empty_obj;
  state = or_default ctx.state empty_obj;
  cancelled = false;
  progress = none;
}

or_default_twice :
    (v : Json) → or_default (or_default v empty_obj) empty_obj ≡ or_default v empty_obj
or_default_twice v = elim (Bool-cases (truthy v)) [ inl e ↦ rw e (rw e refl) | inr e ↦ rw e refl ]

to_int-int :
    (read : String → Result ℤ) (z : ℤ)
    → to_int read (or_default (Json.int z) (Json.int (pos 0))) ≡ ok z
to_int-int read (pos zero) = refl
to_int-int read (pos (suc n)) = ground arith
to_int-int read (negsuc n) = refl

-- from_dict of as_dict gives the context back, with the empty value for each falsy one, not cancelled
-- and with no progress, however a text is read as a number.
pub from_dict-as_dict :
    (read : String → Result ℤ) (ctx : TaskContext)
    → from_dict read (as_dict ctx) ≡ ok (restored ctx)
unfolding from_dict as_dict get_item new_context
from_dict-as_dict read ctx =
    rw
      (
        to_int-int read ctx.job_id,
        or_default_twice ctx.args,
        or_default_twice ctx.results,
        or_default_twice ctx.state,
      )
      refl
