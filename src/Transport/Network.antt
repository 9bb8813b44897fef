-- ===== src/Transport/Network.antt =====
-- inspect_http_code, execute_network_action and amvp_network_action of src/amvp_transport.c,
-- built without AMVP_DEPRECATED, and the callback amvp_curl_write_callback. What they call (curl
-- and the login) is an interface over a state of its own; `none` in the buffers of the callback
-- is a write outside the allocation.
use libamvp.Common.{
  ℕ, suc, ◌+◌, ◌-◌, ◌*◌, Bool, true, false, ◌&&◌, ◌||◌, not, Option, none, some, List, [], ◌∷◌,
  ◌++◌, ◌==◌, ltb, if◌then◌else◌, is_some, ℤ, is_zero, codes, length, take, drop, replicate,
}
use libamvp.Result.{
  Result, success, transport_fail, protocol_rsp_err, unsupported_op, jwt_expired, jwt_invalid,
  json_err, no_ctx, missing_arg, no_data, is_success,
}
use libamvp.SafeC.Errno.{eok, CStr, Buf, until_nul}
use libamvp.SafeC.Compare.{strnlen_s, strstr_s}
use libamvp.SafeC.Copy.{Copied, strncpy_s, memcpy_s}
use libamvp.Protocol.Json.{Json}
use libamvp.Protocol.Errors.{is_protocol_error_message, root_array}

abbrev pub curl_buf_max : ℕ
curl_buf_max = 1024 * 1024 * 64

pub data NetAction : Type 0 where
  get get_vs get_docs get_vs_result get_vs_sample : NetAction
  post post_login post_reg post_vs_resp put put_validation delete : NetAction

-- The calls of an action: curl answers with an HTTP code and leaves the body in the state.
pub record Net (W : Type 0) : Type 0 where
  pub http_get : CStr → W → ℕ × W
  pub http_post : CStr → Option CStr → ℤ → W → ℕ × W
  pub http_put : CStr → Option CStr → ℤ → W → ℕ × W
  pub http_delete : CStr → W → ℕ × W
  pub curl_buf : W → Option CStr
  pub serialize : W → Option (CStr × ℤ)  -- the responses `kat_resp` and their length
  pub refresh : W → Result × W
  pub forget_token : W → W  -- `jwt_token` freed and cleared

abbrev pub is_expired : Result → Bool
is_expired jwt_expired = true
is_expired _ = false

abbrev pub is_unsupported : Result → Bool
is_unsupported unsupported_op = true
is_unsupported _ = false

abbrev pub is_login : NetAction → Bool
is_login post_login = true
is_login _ = false

unfoldable pub match_jwt : CStr → Result
match_jwt text =
    if is_some (strstr_s text curl_buf_max (codes "JWT expired") 11).1
    then jwt_expired
    else (if is_some (strstr_s text curl_buf_max (codes "JWT signature does not match") 28).1
        then jwt_invalid
        else transport_fail)

unfoldable pub match_copy : Copied → Result
unfolding match_jwt
match_copy (some (eok, some b)) = match_jwt (until_nul b)
match_copy r = transport_fail

-- The error string is searched in a copy of its own.
unfoldable pub match_error : Option CStr → Result
unfolding match_copy
match_error none = transport_fail
match_error (some err_str) =
    let n = strnlen_s (some err_str) curl_buf_max in
    match_copy (strncpy_s (some (replicate (n + 1) 0)) (n + 1) (some err_str) n none)

abbrev pub generic_action : NetAction → NetAction
generic_action get = get
generic_action get_vs = get
generic_action get_docs = get
generic_action get_vs_result = get
generic_action get_vs_sample = get
generic_action post = post
generic_action post_reg = post
generic_action post_login = post_login
generic_action post_vs_resp = post_vs_resp
generic_action put = put
generic_action put_validation = put
generic_action delete = delete

abbrev pub check_data : NetAction → Bool
check_data post = true
check_data post_reg = true
check_data post_login = true
check_data put = true
check_data put_validation = true
check_data _ = false

abbrev pub drop_code : {W : Type 0} → Result × ℕ × W → Result × W
drop_code (rv, rc, w) = (rv, w)

abbrev kept : {W : Type 0} → Result × W → Result × Option W
kept (rv, w) = (rv, some w)

module _ {Value Array Object : Type 0} (json : Json Value Array Object) where
  unfoldable pub error_of : Option Object → Option CStr
  error_of none = none
  error_of (some obj) = json.get_string obj (codes "error")

  unfoldable pub second_error : Option Array → Option CStr
  unfolding error_of
  second_error none = none
  second_error (some arr) = error_of (json.get_object arr 1)

  unfoldable pub inspect_http_code : Option CStr → ℕ → Result
  unfolding second_error match_error
  inspect_http_code curl_buf code =
      if code == 200
      then success
      else (if is_protocol_error_message json curl_buf
          then protocol_rsp_err
          else (if code == 400
              then unsupported_op
              else (if code == 401
                  then match_error (second_error (root_array json (json.parse_string curl_buf)))
                  else transport_fail)))

  module _ {W : Type 0} (net : Net W) where
    abbrev pub inspect : ℕ → W → Result
    inspect rc w = inspect_http_code (net.curl_buf w) rc

    -- Code 400 means that the responses were sent before.
    unfoldable pub put_if_sent : CStr → CStr × ℤ → ℕ × W → ℕ × W
    put_if_sent url resp (rc, w) =
        if is_unsupported (inspect rc w) then net.http_put url (some resp.0) resp.1 w else (rc, w)

    unfoldable pub send_responses : CStr → Option (CStr × ℤ) → W → ℕ × W
    unfolding put_if_sent
    send_responses url none w = (0, w)
    send_responses url (some resp) w =
        put_if_sent url resp (net.http_post url (some resp.0) resp.1 w)

    unfoldable pub send : NetAction → CStr → Option CStr → ℤ → Option (CStr × ℤ) → W → ℕ × W
    unfolding send_responses
    send get url body len resp w = net.http_get url w
    send get_vs url body len resp w = net.http_get url w
    send get_docs url body len resp w = net.http_get url w
    send get_vs_result url body len resp w = net.http_get url w
    send get_vs_sample url body len resp w = net.http_get url w
    send post url body len resp w = net.http_post url body len w
    send post_login url body len resp w = net.http_post url body len w
    send post_reg url body len resp w = net.http_post url body len w
    send put url body len resp w = net.http_put url body len w
    send put_validation url body len resp w = net.http_put url body len w
    send post_vs_resp url body len resp w = send_responses url resp w
    send delete url body len resp w = net.http_delete url w

    -- The second switch, after a refresh, where `rc` is still the first code: the code of a
    -- repeated DELETE is not kept.
    unfoldable pub send_again :
        NetAction → CStr → Option CStr → ℤ → Option (CStr × ℤ) → ℕ → W → ℕ × W
    unfolding send
    send_again post_login url body len resp rc w = (rc, w)
    send_again delete url body len resp rc w = (rc, (net.http_delete url w).1)
    send_again action url body len resp rc w = send action url body len resp w

    unfoldable pub inspected : ℕ × W → Result × ℕ × W
    inspected (rc, w) = (inspect rc w, rc, w)

    unfoldable pub after_refresh :
        NetAction → CStr → Option CStr → ℤ → Option (CStr × ℤ) → ℕ → Result × W → Result × ℕ × W
    unfolding inspected send_again
    after_refresh action url body len resp rc (rv, w) =
        if is_success rv then inspected (send_again action url body len resp rc w) else (rv, rc, w)

    unfoldable pub after_send :
        NetAction → CStr → Option CStr → ℤ → Option (CStr × ℤ) → ℕ × W → Result × ℕ × W
    unfolding after_refresh
    after_send action url body len resp (rc, w) =
        if is_expired (inspect rc w) && not (is_login action)
        then after_refresh action url body len resp rc (net.refresh w)
        else (inspect rc w, rc, w)

    -- The responses are serialized for post_vs_resp only; without them the code stays 0.
    unfoldable pub execute_network_action : NetAction → CStr → Option CStr → ℤ → W → Result × ℕ × W
    unfolding after_send
    execute_network_action post_vs_resp url body len w =
        let resp = net.serialize w in
        let sent =
          after_send post_vs_resp url body len resp (send post_vs_resp url body len resp w) in
        if is_some resp then sent else (json_err, 0, w)
    execute_network_action action url body len w =
        after_send action url body len none (send action url body len none w)

    abbrev pub cleared : NetAction → W → W
    cleared post_login w = net.forget_token w
    cleared _ w = w

    -- amvp_network_action with a context.
    unfoldable pub act : NetAction → Option CStr → Option CStr → ℤ → W → Result × W
    unfolding execute_network_action
    act action none body len w = (missing_arg, w)
    act action (some url) body len w =
        if check_data action && (not (is_some body) || is_zero len)
        then (no_data, cleared action w)
        else drop_code
            (execute_network_action (generic_action action) url body len (cleared action w))

    unfoldable pub network_action :
        Option W → NetAction → Option CStr → Option CStr → ℤ → Result × Option W
    unfolding act
    network_action none action url body len = (no_ctx, none)
    network_action (some w) action url body len = kept (act action url body len w)

-- The body received so far.
pub record Receiver : Type 0 where
  pub curl_buf : Option Buf
  pub curl_read_ctr : ℕ

-- The buffer, allocated when there is none.
abbrev pub allocated : ℕ → Option Buf → Buf
allocated max none = replicate max 0
allocated max (some b) = b

abbrev pub object_of : Copied → Option Buf
object_of none = none
object_of (some (e, b)) = b

-- `b[i] = 0`
unfoldable pub terminate : Buf → ℕ → Option Buf
terminate [] i = none
terminate (c ∷ b) ℕ.zero = some (0 ∷ b)
terminate (c ∷ b) (suc i) = elim (terminate b i) [ none ↦ none | some b' ↦ some (c ∷ b') ]

unfoldable pub received : ℕ → ℕ → Option Buf → Option (ℕ × Receiver)
received nmemb ctr none = none
received nmemb ctr (some b) =
    some (nmemb, record { curl_buf = some b; curl_read_ctr = ctr + nmemb })

unfoldable pub terminated : Buf → ℕ → Option Buf → Option Buf
unfolding terminate
terminated before i none = none
terminated before i (some tail) = terminate (before ++ tail) i

-- `max` is the size of the allocation, AMVP_CURL_BUF_MAX; a failed allocation is not modelled.
unfoldable pub curl_write_callback : ℕ → List ℕ → ℕ → Receiver → Option (ℕ × Receiver)
unfolding received terminated
curl_write_callback max bytes size r =
    let ctr = r.curl_read_ctr in
    let b = allocated max r.curl_buf in
    let nmemb = length bytes in
    let tail = object_of (memcpy_s (some (drop ctr b)) (max - ctr) (some bytes) nmemb) in
    if size == 1
    then (if ltb max (ctr + nmemb)
        then some (0, record { curl_buf = some b; curl_read_ctr = ctr })
        else received nmemb ctr (terminated (take ctr b) (ctr + nmemb) tail))
    else some (0, r)
