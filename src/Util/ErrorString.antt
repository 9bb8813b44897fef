-- ===== src/Util/ErrorString.antt =====
-- amvp_lookup_error_string of src/amvp_util.c. The table has 26 rows, of which 24 are given: the
-- others are zero.
use libamvp.Common.{
  ℕ, ◌≡◌, refl, Option, none, some, List, [], ◌∷◌, ◌++◌, ◌==◌, if◌then◌else◌, codes, is_some, not,
  String, replicate,
}
use libamvp.Result.{
  Result, success, malloc_fail, no_ctx, transport_fail, protocol_rsp_err, no_data, unsupported_op,
  cleanup_fail, kat_download_retry, retry_operation, invalid_arg, missing_arg, crypto_module_fail,
  no_cap, malformed_json, json_err, tc_missing_data, tc_invalid_data, data_too_large,
  convert_data_err, dup_cipher, totp_fail, ctx_not_empty, jwt_missing, jwt_expired, jwt_invalid,
  internal_err, to_int, is_success,
}
use libamvp.SafeC.Errno.{CStr}

abbrev row : Result → String → ℕ × Option CStr
row r s = (to_int r, some (codes s))

abbrev pub error_desc_tbl : List (ℕ × Option CStr)
error_desc_tbl =
    (row malloc_fail "Error allocating memory"
      ∷ row no_ctx "No valid context found"
      ∷ row transport_fail "Error using transport library"
      ∷ row no_data "Trying to use data but none was found"
      ∷ row unsupported_op "Unsupported operation"
      ∷ row cleanup_fail "Error cleaning up AMVP context"
      ∷ row kat_download_retry "Error, need to retry"
      ∷ row invalid_arg "Invalid argument"
      ∷ row missing_arg "Missing a required argument"
      ∷ row crypto_module_fail "Error from crypto module processing a vector set"
      ∷ row no_cap "No matching capability found"
      ∷ row malformed_json "Unable to process JSON"
      ∷ row json_err "Error using JSON library"
      ∷ row tc_missing_data "Provided test case is missing required data"
      ∷ row tc_invalid_data "Provided test case has invalid data"
      ∷ row data_too_large "Data too large"
      ∷ row convert_data_err "Failed converting data between hex/binary"
      ∷ row dup_cipher "Duplicate cipher, may have already registered"
      ∷ row totp_fail "Failed to base64 decode TOTP seed"
      ∷ row ctx_not_empty "ctx already initialized"
      ∷ row jwt_missing "Error using JWT"
      ∷ row jwt_expired "Provided JWT has expired"
      ∷ row jwt_invalid "Proivded JWT is not valid"
      ∷ row internal_err "Unexpected error occured internally"
      ∷ [])
    ++ replicate 2 (0, none)

unfoldable pub desc_in : List (ℕ × Option CStr) → ℕ → Option CStr
desc_in [] rv = some (codes "Unknown error")
desc_in ((n, desc) ∷ tbl) rv = if rv == n then desc else desc_in tbl rv

unfoldable pub lookup_error_string : Result → Option CStr
unfolding desc_in to_int
lookup_error_string rv = desc_in error_desc_tbl (to_int rv)

-- Every result but success has a string; for success the lookup finds a row that was not given,
-- and returns NULL.
pub lookup_error_string-is_some :
    (rv : Result) → is_some (lookup_error_string rv) ≡ not (is_success rv)
unfolding lookup_error_string
lookup_error_string-is_some success = refl
lookup_error_string-is_some malloc_fail = refl
lookup_error_string-is_some no_ctx = refl
lookup_error_string-is_some transport_fail = refl
lookup_error_string-is_some protocol_rsp_err = refl
lookup_error_string-is_some no_data = refl
lookup_error_string-is_some unsupported_op = refl
lookup_error_string-is_some cleanup_fail = refl
lookup_error_string-is_some kat_download_retry = refl
lookup_error_string-is_some retry_operation = refl
lookup_error_string-is_some invalid_arg = refl
lookup_error_string-is_some missing_arg = refl
lookup_error_string-is_some crypto_module_fail = refl
lookup_error_string-is_some no_cap = refl
lookup_error_string-is_some malformed_json = refl
lookup_error_string-is_some json_err = refl
lookup_error_string-is_some tc_missing_data = refl
lookup_error_string-is_some tc_invalid_data = refl
lookup_error_string-is_some data_too_large = refl
lookup_error_string-is_some convert_data_err = refl
lookup_error_string-is_some dup_cipher = refl
lookup_error_string-is_some totp_fail = refl
lookup_error_string-is_some ctx_not_empty = refl
lookup_error_string-is_some jwt_missing = refl
lookup_error_string-is_some jwt_expired = refl
lookup_error_string-is_some jwt_invalid = refl
lookup_error_string-is_some internal_err = refl
