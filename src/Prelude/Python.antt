-- ===== src/Prelude/Python.antt =====
-- Reading JSON values as Python does, with the exception that each wrong shape raises.
use mathlib.Core.Bool.{Bool, true, false}
use mathlib.Core.Option.{Option, none, some}
use mathlib.Core.List.{[], ◌∷◌}
use agentic_octopus.Prelude.Tests.{nat_beq, if◌then◌else◌}
use agentic_octopus.Prelude.Classes.{◌==◌}
use agentic_octopus.Prelude.Texts.{Text, text_eq}
use agentic_octopus.Prelude.Json.{
  Json, null, bool, num, str, arr, obj, nil, cons, Fields, end, field,
}

pub data Exc : Type 0 where
  key_error type_error attribute_error index_error json_error value_error : Exc

pub data Py {ℓ} (A : Type ℓ) : Type ℓ where
  value : A → Py A
  throws : Exc → Py A

infixl 5 ◌>>=◌
abbrev pub ◌>>=◌ {ℓ κ} : {A : Type ℓ} {B : Type κ} → Py A → (A → Py B) → Py B
value a >>= f = f a
throws e >>= f = throws e

unfoldable pub field_of : Text → Fields → Option Json
field_of k end = none
field_of k (field j v fs) = if k == j then some v else field_of k fs

-- `j[k]` with a string key
or_key_error : Option Json → Py Json
or_key_error none = throws key_error
or_key_error (some v) = value v

unfoldable pub subscript : Json → Text → Py Json
unfolding or_key_error
subscript (obj fs) k = or_key_error (field_of k fs)
subscript _ k = throws type_error

-- `j.get(k)`
unfoldable pub get : Json → Text → Py (Option Json)
get (obj fs) k = value (field_of k fs)
get _ k = throws attribute_error

-- `j[0]`
unfoldable pub first : Json → Py Json
first (arr (cons v l)) = value v
first (arr nil) = throws index_error
first (str (c ∷ s)) = value (str (c ∷ []))
first (str []) = throws index_error
first (obj fs) = throws key_error
first _ = throws type_error

-- `bool(j)`
unfoldable pub truthy : Json → Bool
truthy null = false
truthy (bool b) = b
truthy (num n) = if nat_beq n 0 then false else true
truthy (str []) = false
truthy (str (c ∷ s)) = true
truthy (arr nil) = false
truthy (arr (cons v l)) = true
truthy (obj end) = false
truthy (obj (field k v fs)) = true

-- The value of `j.get(k)` if it is truthy; a missing key is None.
unfoldable pub if_truthy : Option Json → Option Json
unfolding truthy
if_truthy none = none
if_truthy (some v) = if truthy v then some v else none
