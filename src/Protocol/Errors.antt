-- ===== src/Protocol/Errors.antt =====
-- The protocol errors of include/amvp/amvp_error.h, and amvp_is_protocol_error_message,
-- amvp_check_for_protocol_error (src/amvp_error.c), amvp_generic_error_log and
-- amvp_handle_protocol_error (src/amvp.c). An enum value is its number.
use libamvp.Common.{
  ℕ, zero, suc, Bool, true, false, ◌&&◌, Option, none, some, List, [], ◌∷◌, ◌==◌, leb,
  if◌then◌else◌, is_some, ℤ, pos, negsuc, codes,
}
use libamvp.Result.{
  Result, internal_err, missing_arg, invalid_arg, retry_operation, transport_fail, is_success,
}
use libamvp.SafeC.Errno.{CStr}
use libamvp.Protocol.Json.{Json}

pub data Category : Type 0 where
  general auth malformed_payload invalid_request on_server cat_max : Category

abbrev pub category_number : Category → ℕ
category_number general = 0
category_number auth = 1
category_number malformed_payload = 2
category_number invalid_request = 3
category_number on_server = 4
category_number cat_max = 5

pub record ErrorEntry : Type 0 where
  pub code : ℤ
  pub desc : List CStr

pub record ProtocolError : Type 0 where
  pub category : Category
  pub category_desc : CStr
  pub errors : List ErrorEntry

module _ {Value Array Object : Type 0} (json : Json Value Array Object) where
  open json use {parse_string, get_array, get_count, get_object, has_value, get_array_of}

  -- The second object has the three members of an error.
  unfoldable pub has_error : Option Object → Bool
  has_error none = false
  has_error (some obj) =
      has_value obj (codes "category")
      && has_value obj (codes "description")
      && has_value obj (codes "errors")
      && is_some (get_array_of obj (codes "errors"))

  -- The first object has the version.
  unfoldable pub has_version : Option Object → Bool
  has_version none = false
  has_version (some obj) = has_value obj (codes "amvVersion")

  unfoldable pub is_error_array : Option Array → Bool
  unfolding has_error has_version
  is_error_array none = false
  is_error_array (some arr) =
      (get_count arr == 2) && has_version (get_object arr 0) && has_error (get_object arr 1)

  unfoldable pub root_array : Option Value → Option Array
  root_array none = none
  root_array (some val) = get_array val

  unfoldable pub is_protocol_error_message : Option CStr → Bool
  unfolding is_error_array root_array
  is_protocol_error_message buf = is_error_array (root_array (parse_string buf))

abbrev pub is_code : ℕ → ℤ → Bool
is_code n (pos m) = m == n
is_code n (negsuc m) = false

abbrev pub same_int : ℤ → ℤ → Bool
same_int (pos m) (pos n) = m == n
same_int (negsuc m) (negsuc n) = m == n
same_int (pos m) (negsuc n) = false
same_int (negsuc m) (pos n) = false

unfoldable pub code_among : ℤ → List ErrorEntry → Bool
code_among code [] = false
code_among code (e ∷ es) = if same_int e.code code then true else code_among code es

-- The category that the caller asks for is any int.
unfoldable pub check_for_protocol_error : Option ProtocolError → ℤ → ℤ → ℤ
unfolding code_among
check_for_protocol_error none cat code = negsuc 0
check_for_protocol_error (some err) (negsuc n) code = negsuc 0
check_for_protocol_error (some err) (pos n) code =
    if leb 5 n
    then negsuc 0
    else (if category_number err.category == n
        then (if code_among code err.errors then pos 1 else pos 0)
        else pos 0)

-- The lines logged for the list, on fuel: the loop does not advance `list`.
unfoldable pub log_loop : ℕ → List ErrorEntry → List CStr → Option (List CStr)
log_loop zero list logged = none
log_loop (suc fuel) [] logged = some logged
log_loop (suc fuel) (e ∷ es) logged = log_loop fuel (e ∷ es) (logged_after e.desc logged)
  where
    logged_after : List CStr → List CStr → List CStr
    logged_after [] logged = logged
    logged_after (d ∷ ds) logged = logged_after ds (d ∷ logged)

unfoldable pub generic_error_log : ℕ → ProtocolError → Option (List CStr)
unfolding log_loop
generic_error_log fuel err = log_loop fuel err.errors []

module _ {W : Type 0} (refresh : W → Result × W) where
  unfoldable pub after_refresh : Result × W → Result × W
  after_refresh (rv, w) = if is_success rv then (retry_operation, w) else (transport_fail, w)

  -- One error of the category auth.
  unfoldable pub auth_step : ℤ → Result × W → Result × W
  unfolding after_refresh
  auth_step code (rv, w) =
      if is_code 1 code
      then (missing_arg, w)
      else (if is_code 2 code
          then (invalid_arg, w)
          else (if is_code 3 code
              then after_refresh (refresh w)
              else (if is_code 4 code then (invalid_arg, w) else (rv, w))))

  unfoldable pub auth_loop : List ErrorEntry → Result × W → Result × W
  unfolding auth_step
  auth_loop [] r = r
  auth_loop (e ∷ es) r = auth_loop es (auth_step e.code r)

  unfoldable pub after_log : Option (List CStr) → W → Option (Result × W)
  after_log none w = none
  after_log (some logged) w = some (internal_err, w)

  -- On fuel for the loop of generic_error_log.
  unfoldable pub handle_category : Category → ℕ → ProtocolError → W → Option (Result × W)
  unfolding auth_loop after_log generic_error_log
  handle_category auth fuel err w = some (auth_loop err.errors (internal_err, w))
  handle_category cat_max fuel err w = some (invalid_arg, w)
  handle_category general fuel err w = after_log (generic_error_log fuel err) w
  handle_category malformed_payload fuel err w = after_log (generic_error_log fuel err) w
  handle_category invalid_request fuel err w = after_log (generic_error_log fuel err) w
  handle_category on_server fuel err w = after_log (generic_error_log fuel err) w

  unfoldable pub handle_protocol_error : ℕ → Option ProtocolError → W → Option (Result × W)
  unfolding handle_category
  handle_protocol_error fuel none w = some (missing_arg, w)
  handle_protocol_error fuel (some err) w = handle_category err.category fuel err w
