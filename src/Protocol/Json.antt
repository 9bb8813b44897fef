-- ===== src/Protocol/Json.antt =====
-- The calls of the JSON library that src/amvp_error.c, src/amvp_transport.c,
-- src/amvp_operating_env.c and src/amvp.c make, as an interface; NULL is
-- `none`.
use libamvp.Common.{ℕ, Bool, Option, ℤ}
use libamvp.SafeC.Errno.{CStr}

pub record Json (Value Array Object : Type 0) : Type 0 where
  pub parse_string : Option CStr → Option Value
  pub get_array : Value → Option Array
  pub get_count : Array → ℕ
  pub get_object : Array → ℕ → Option Object
  pub has_value : Object → CStr → Bool
  pub get_string : Object → CStr → Option CStr
  pub get_array_of : Object → CStr → Option Array
  pub get_object_of : Object → CStr → Option Object
  pub has_number : Object → CStr → Bool  -- json_object_has_value_of_type, JSONNumber
  pub get_number : Object → CStr → ℤ  -- converted to int
  pub get_string_at : Array → ℕ → Option CStr
  pub get_boolean : Object → CStr → Option Bool  -- none for -1
