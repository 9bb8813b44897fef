-- ===== src/Transport/Codes.antt =====
-- What inspect_http_code and execute_network_action return for the HTTP codes of curl.
use libamvp.Common.{ℕ, ◌≡◌, ◌≢◌, not, ◌&&◌, Option, none, some, ℤ, arith, if-both, is_some}
use libamvp.Result.{Result, success, json_err}
use libamvp.SafeC.Errno.{
  CStr, eok, esnullp, eszerol, eslemin, eslemax, esovrlp, esempty, esnospc, esunterm, esnodiff,
  esnotfnd, einval,
}
use libamvp.SafeC.Copy.{Copied}
use libamvp.Protocol.Json.{Json}
use libamvp.Transport.Network.{
  NetAction, post_vs_resp, delete, Net, match_jwt, match_copy, match_error, inspect_http_code,
  inspect, after_refresh, after_send, is_expired, is_login, execute_network_action,
}

match_jwt-fails : (text : CStr) → match_jwt text ≢ success
unfolding match_jwt
match_jwt-fails text h = ground arith

match_copy-fails : (r : Copied) → match_copy r ≢ success
unfolding match_copy
match_copy-fails none h = ground arith
match_copy-fails (some (e, none)) h = ground arith
match_copy-fails (some (eok, some b)) h = match_jwt-fails _ h
match_copy-fails (some (esnullp, some b)) h = ground arith
match_copy-fails (some (eszerol, some b)) h = ground arith
match_copy-fails (some (eslemin, some b)) h = ground arith
match_copy-fails (some (eslemax, some b)) h = ground arith
match_copy-fails (some (esovrlp, some b)) h = ground arith
match_copy-fails (some (esempty, some b)) h = ground arith
match_copy-fails (some (esnospc, some b)) h = ground arith
match_copy-fails (some (esunterm, some b)) h = ground arith
match_copy-fails (some (esnodiff, some b)) h = ground arith
match_copy-fails (some (esnotfnd, some b)) h = ground arith
match_copy-fails (some (einval, some b)) h = ground arith

match_error-fails : (s : Option CStr) → match_error s ≢ success
unfolding match_error
match_error-fails none h = ground arith
match_error-fails (some s) h = match_copy-fails _ h

module _ {Value Array Object : Type 0} (json : Json Value Array Object) where
  -- Only the code 200 is a success.
  pub inspect_http_code-success :
      (curl_buf : Option CStr) (code : ℕ)
      → inspect_http_code json curl_buf code ≡ success
      → code ≡ 200
  unfolding inspect_http_code
  inspect_http_code-success curl_buf code h = ground (arith, match_error-fails _)

  module _ {W : Type 0} (net : Net W) where
    abbrev OnlyOk : Result × ℕ × W → Type 0
    OnlyOk r = r.0 ≡ success → r.1 ≡ 200

    after_refresh-success :
        (action : NetAction) (url : CStr) (body : Option CStr) (len : ℤ) (resp : Option (CStr × ℤ))
        (rc : ℕ) (r : Result × W)
        → (after_refresh json net action url body len resp rc r).0 ≡ success
        → (after_refresh json net action url body len resp rc r).1 ≡ 200
    unfolding after_refresh
    after_refresh-success action url body len resp rc (success, w) h =
        inspect_http_code-success _ _ h
    after_refresh-success action url body len resp rc (rv, w) h = ground arith

    after_send-success :
        (action : NetAction) (url : CStr) (body : Option CStr) (len : ℤ) (resp : Option (CStr × ℤ))
        (sent : ℕ × W)
        → (after_send json net action url body len resp sent).0 ≡ success
        → (after_send json net action url body len resp sent).1 ≡ 200
    unfolding after_send
    after_send-success action url body len resp (rc, w) h =
        if-both OnlyOk (is_expired (inspect json net rc w) && not (is_login action))
          (after_refresh-success action url body len resp rc (net.refresh w))
          (inspect_http_code-success _ _) h

    -- Whatever the action, with or without a refresh of the session: success is reported only
    -- with the HTTP code 200.
    pub execute_network_action-success :
        (action : NetAction) (url : CStr) (body : Option CStr) (len : ℤ) (w : W)
        → (execute_network_action json net action url body len w).0 ≡ success
        → (execute_network_action json net action url body len w).1 ≡ 200
    unfolding execute_network_action
    execute_network_action-success post_vs_resp url body len w h =
        if-both OnlyOk (is_some (net.serialize w))
          (after_send-success post_vs_resp url body len (net.serialize w) _)
          (λ (e : json_err ≡ success). ground arith) h
    execute_network_action-success action url body len w h =
        after_send-success action url body len none _ h

    after_send-delete :
        (url : CStr) (body : Option CStr) (len : ℤ) (sent : ℕ × W)
        → (after_send json net delete url body len none sent).1 ≡ sent.0
    unfolding after_send
    after_send-delete url body len (rc, w) = ground arith

    -- The code of a DELETE is the code of the first answer, also when the session was refreshed and
    -- the request repeated.
    pub execute_network_action-delete :
        (url : CStr) (body : Option CStr) (len : ℤ) (w : W)
        → (execute_network_action json net delete url body len w).1 ≡ (net.http_delete url w).0
    unfolding execute_network_action
    execute_network_action-delete url body len w = after_send-delete url body len _
