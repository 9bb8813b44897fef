-- ===== src/Flow/Login.antt =====
-- amvp_build_login, amvp_parse_login, amvp_login and amvp_refresh of src/amvp.c, over the actions
-- of the network (Transport/Network), which call amvp_refresh themselves. Allocations succeed.
use libamvp.Common.{
  ℕ, ◌+◌, Bool, true, ◌||◌, Option, none, some, ltb, if◌then◌else◌, ℤ, pos, is_some, replicate,
  codes,
}
use libamvp.Result.{
  Result, success, json_err, totp_fail, jwt_missing, jwt_invalid, internal_err, is_success,
}
use libamvp.SafeC.Errno.{CStr}
use libamvp.SafeC.Compare.{strnlen_s}
use libamvp.SafeC.Copy.{strcpy_s}
use libamvp.Util.StringList.{word_of}
use libamvp.Protocol.Json.{Json}
use libamvp.Env.Pages.{get_obj_from_rsp}
use libamvp.Transport.Network.{Net, act}
use libamvp.Flow.State.{
  Session, Peer, LoginMessage, http_get, http_post, http_put, http_delete, Method, request_of,
  received,
}
use libamvp.Flow.Requests.{Action, send_login}

abbrev pub totp_token_max : ℕ
totp_token_max = 128

abbrev pub jwt_token_max : ℕ
jwt_token_max = 2048

-- A token in an object of 2049 bytes.
unfoldable pub copied_token : CStr → Option CStr
copied_token jwt =
    word_of (strcpy_s (some (replicate (jwt_token_max + 1) 0)) (jwt_token_max + 1) (some jwt))

abbrev pub token_too_large : CStr → Bool
token_too_large jwt = ltb jwt_token_max (strnlen_s (some jwt) (jwt_token_max + 1))

-- The object of the message, made for a password or a refresh.
abbrev pub login_message : Option CStr → Bool → Option CStr → Option LoginMessage
login_message password refresh jwt =
    if is_some password || refresh
    then some (record { password = password; access_token = if refresh then jwt else none })
    else none

unfoldable pub take_token : {R : Type 0} → Option CStr → Session R → Result × Session R
unfolding copied_token strnlen_s
take_token none s = (jwt_missing, s)
take_token (some jwt) s =
    if token_too_large jwt
    then (jwt_invalid, s)
    else (success, record s { jwt_token = copied_token jwt })

module _ {Value Array Object : Type 0} (json : Json Value Array Object) where
  -- json_object_get_string.
  unfoldable pub string_of : Option Object → CStr → Option CStr
  string_of none name = none
  string_of (some obj) name = json.get_string obj name

  unfoldable pub parse_value : {R : Type 0} → Option Value → Session R → Result × Session R
  unfolding take_token string_of
  parse_value none s = (json_err, s)
  parse_value (some val) s =
      take_token (string_of (get_obj_from_rsp json val) (codes "accessToken")) s

  unfoldable pub parse_login : {R : Type 0} → Session R → Result × Session R
  unfolding parse_value
  parse_login s = parse_value (json.parse_string s.curl_buf) s

module _ {R : Type 0} (peer : Peer R) where
  abbrev pub Login : Type 0
  Login = Result × (CStr × ℤ) × Session R

  -- After the call of the callback; an error leaves the empty array.
  unfoldable pub with_totp : Bool → Session R → Result × CStr × R → Login
  with_totp refresh s (rv, token, r) =
      let s' = record s { remote = r } in
      let text = peer.login_text (login_message (some token) refresh s.jwt_token) in
      if is_success rv
      then (if ltb totp_token_max (strnlen_s (some token) (totp_token_max + 1))
          then (totp_fail, peer.login_text none, s')
          else (success, text, s'))
      else (totp_fail, peer.login_text none, s')

  unfoldable pub build_with : Option (R → Result × CStr × R) → Bool → Session R → Login
  unfolding with_totp
  build_with none refresh s = (success, peer.login_text (login_message none refresh s.jwt_token), s)
  build_with (some totp_cb) refresh s = with_totp refresh s (totp_cb s.remote)

  unfoldable pub build_login : Bool → Session R → Login
  unfolding build_with
  build_login refresh s = build_with peer.totp_cb refresh s

  module _ {Value Array Object : Type 0} (json : Json Value Array Object) where
    unfoldable pub after_login : Result × Session R → Result × Session R
    unfolding parse_login
    after_login (rv, s) = if is_success rv then parse_login json s else (rv, s)

    unfoldable pub send_built : Action R → Login → Result × Session R
    unfolding after_login
    send_built action (rv, text, s) =
        let answer = after_login (send_login peer action (some text.0) text.1 s) in
        if is_success rv then answer else (rv, s)

    unfoldable pub login : Action R → Bool → Session R → Result × Session R
    unfolding send_built build_login
    login action refresh s = send_built action (build_login refresh s)

    unfoldable pub perform : Method → CStr → Option CStr → ℤ → Session R → ℕ × Session R
    perform method url body len s =
        let q = request_of method url body len s in
        received q s (peer.perform q s.curl_buf s.remote)

    -- The network over the peer, with amvp_refresh as an argument.
    abbrev pub net_with : (Session R → Result × Session R) → Net (Session R)
    net_with refresh = record {
      http_get = λ url. perform http_get url none (pos 0);
      http_post = perform http_post;
      http_put = perform http_put;
      http_delete = λ url. perform http_delete url none (pos 0);
      curl_buf = λ s. s.curl_buf;
      serialize = λ s. peer.kat_resp s.remote;
      refresh = refresh;
      forget_token = λ s. record s { jwt_token = none };
    }

    -- The login sends an action that never refreshes, so any function stands in for amvp_refresh.
    abbrev pub login_action : Action R
    login_action = act json (net_with (λ s. (internal_err, s)))

    unfoldable pub refresh : Session R → Result × Session R
    unfolding login
    refresh s = login login_action true s

    -- amvp_network_action of the session.
    unfoldable pub network_action : Action R
    unfolding refresh act
    network_action = act json (net_with refresh)
