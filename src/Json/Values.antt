-- ===== src/Json/Values.antt =====
-- Python's operations on the values of JSON columns: truth, lookup, item assignment and int(…).
use Prim.Native.Nat.{◌/◌}
use pyreljob.Json.{Json, Items, Dict}
use pyreljob.Models.{Error, Result, ok, raised}
use pyreljob.Prelude.{
  ℕ, zero, suc, ◌^◌, String, Bool, true, false, not, ◌==◌, if◌then◌else◌, str_eq, ℤ, pos, negsuc,
}

abbrev pub is_nonzero : ℤ → Bool
is_nonzero (pos n) = not (n == 0)
is_nonzero (negsuc n) = true

abbrev pub empty_obj : Json
empty_obj = Json.obj Dict.end

-- What Python's `if` and `or` see.
abbrev pub truthy : Json → Bool
truthy Json.null = false
truthy (Json.bool b) = b
truthy (Json.int z) = is_nonzero z
truthy (Json.float x) = is_nonzero x.mantissa
truthy (Json.text s) = not (str_eq s "")
truthy (Json.arr Items.nil) = false
truthy (Json.arr (Items.cons _ _)) = true
truthy (Json.obj Dict.end) = false
truthy (Json.obj (Dict.entry _ _ _)) = true

-- `v or default`
abbrev pub or_default : Json → Json → Json
or_default v default = if truthy v then v else default

-- `d.get(key)`, with null for None.
unfoldable pub get_item : String → Dict → Json
get_item key Dict.end = Json.null
get_item key (Dict.entry k v d) = if str_eq k key then v else get_item key d

-- `d[key] = v`
unfoldable pub insert_item : String → Json → Dict → Dict
insert_item key v Dict.end = Dict.entry key v Dict.end
insert_item key v (Dict.entry k w d) =
    if str_eq k key then Dict.entry k v d else Dict.entry k w (insert_item key v d)

-- `value[key] = v`; only a dict takes a text key.
abbrev pub set_item : String → Json → Json → Result Json
set_item key v (Json.obj d) = ok (Json.obj (insert_item key v d))
set_item key v _ = raised Error.type_error

abbrev pub negate : ℕ → ℤ
negate zero = pos 0
negate (suc n) = negsuc n

-- A fraction z / 2 ^ s, cut towards zero.
abbrev pub truncate : ℤ → ℕ → ℤ
truncate (pos n) s = pos (n / 2 ^ s)
truncate (negsuc n) s = negate (suc n / 2 ^ s)

-- `int(value)`. The reading of a text is a parameter.
abbrev pub to_int : (String → Result ℤ) → Json → Result ℤ
to_int read (Json.int z) = ok z
to_int read (Json.bool true) = ok (pos 1)
to_int read (Json.bool false) = ok (pos 0)
to_int read (Json.float x) = ok (truncate x.mantissa x.scale)
to_int read (Json.text s) = read s
to_int read _ = raised Error.type_error
