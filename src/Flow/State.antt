-- ===== src/Flow/State.antt =====
-- The part of AMVP_CTX (include/amvp/amvp_lcl.h) that the run of a session changes, and what the
-- run calls of curl, the system and the application. Each HTTP request is recorded in `sent`, the
-- latest first; `remote` is the state of all that is outside.
use libamvp.Common.{ℕ, Bool, Option, List, ◌∷◌, ℤ}
use libamvp.Result.{Result}
use libamvp.SafeC.Errno.{CStr}

pub data Method : Type 0 where
  http_get http_post http_put http_delete : Method

-- A request: the URL, the body and its length, and the token of the Authorization header.
pub record Request : Type 0 where
  pub method : Method
  pub url : CStr
  pub body : Option CStr
  pub len : ℤ
  pub token : Option CStr

pub record Session (R : Type 0) : Type 0 where
  pub server_name : Option CStr
  pub server_port : ℤ
  pub path_segment : Option CStr
  pub jwt_token : Option CStr
  pub session_url : Option CStr
  pub vsid_url_list : List CStr
  pub vs_id : ℤ
  pub session_passed : Bool
  pub session_file_path : Option CStr
  pub curl_buf : Option CStr
  pub remote : R
  pub sent : List Request

-- What the login message contains.
pub record LoginMessage : Type 0 where
  pub password : Option CStr
  pub access_token : Option CStr

pub record Peer (R : Type 0) : Type 0 where
  -- A request with the buffer before it: the HTTP code and the buffer after it.
  pub perform : Request → Option CStr → R → ℕ × Option CStr × R
  pub kat_resp : R → Option (CStr × ℤ)  -- the serialized responses and their length
  pub print_int : ℤ → CStr  -- `%d`
  pub escape : CStr → ℕ → Option CStr  -- curl_easy_escape
  pub totp_cb : Option (R → Result × CStr × R)  -- the result and the token it leaves
  pub login_text : Option LoginMessage → CStr × ℤ  -- the array with the message, if there is one

-- The request is sent with the session's token.
abbrev pub request_of : {R : Type 0} → Method → CStr → Option CStr → ℤ → Session R → Request
request_of method url body len s = record {
  method = method;
  url = url;
  body = body;
  len = len;
  token = s.jwt_token;
}

abbrev pub received : {R : Type 0} → Request → Session R → ℕ × Option CStr × R → ℕ × Session R
received q s (code, buf, r) = (code, record s { curl_buf = buf; remote = r; sent = q ∷ s.sent })
