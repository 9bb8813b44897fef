-- ===== src/Result.antt =====
-- AMVP_RESULT of include/amvp/amvp.h.
use libamvp.Common.{ℕ, ◌≡◌, Bool, true, false, arith}

pub data Result : Type 0 where
  success malloc_fail no_ctx transport_fail protocol_rsp_err no_data unsupported_op : Result
  cleanup_fail kat_download_retry retry_operation invalid_arg missing_arg : Result
  crypto_module_fail no_cap malformed_json json_err tc_missing_data tc_invalid_data : Result
  data_too_large convert_data_err dup_cipher totp_fail ctx_not_empty jwt_missing : Result
  jwt_expired jwt_invalid internal_err : Result

-- The value of the enumerator.
unfoldable pub to_int : Result → ℕ
to_int success = 0
to_int malloc_fail = 1
to_int no_ctx = 2
to_int transport_fail = 3
to_int protocol_rsp_err = 4
to_int no_data = 5
to_int unsupported_op = 6
to_int cleanup_fail = 7
to_int kat_download_retry = 8
to_int retry_operation = 9
to_int invalid_arg = 10
to_int missing_arg = 11
to_int crypto_module_fail = 12
to_int no_cap = 13
to_int malformed_json = 14
to_int json_err = 15
to_int tc_missing_data = 16
to_int tc_invalid_data = 17
to_int data_too_large = 18
to_int convert_data_err = 19
to_int dup_cipher = 20
to_int totp_fail = 21
to_int ctx_not_empty = 22
to_int jwt_missing = 23
to_int jwt_expired = 24
to_int jwt_invalid = 25
to_int internal_err = 26

abbrev pub is_success : Result → Bool
is_success success = true
is_success _ = false

pub is_success-eq : (rv : Result) → is_success rv ≡ true → rv ≡ success
is_success-eq rv h = ground (arith, h)
