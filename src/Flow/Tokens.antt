-- ===== src/Flow/Tokens.antt =====
-- The token of the session after a login.
use libamvp.Common.{
  ℕ, ◌-◌, ◌≡◌, ◌≢◌, refl, ◌⊎◌, inl, inr, Bool, true, false, Option, none, some, ℤ, if◌then◌else◌,
  if-both, if-split, codes, ◌++◌, arith, is_zero, not, ◌||◌, is_some, ◌&&◌,
}
use libamvp.Result.{Result, success, is_success, no_data, missing_arg, internal_err}
use libamvp.SafeC.Errno.{CStr}
use libamvp.Protocol.Json.{Json}
use libamvp.Env.Pages.{attr_url_max, get_obj_from_rsp}
use libamvp.Transport.Network.{
  post_login, inspect_http_code, after_refresh, act, execute_network_action, after_send, send,
  is_expired,
}
use libamvp.Flow.State.{Session, Peer, http_post}
use libamvp.Flow.Requests.{request, send_with_path_seg, printed, server_url, sanity_check_ctx}
use libamvp.Flow.Login.{
  Login, copied_token, token_too_large, with_totp, build_with, build_login, string_of, take_token,
  parse_value, parse_login, after_login, send_built, login, login_action, net_with, perform,
  refresh, network_action,
}

else_of : {A : Type 0} (b : Bool) (x y : A) → (if b && false then x else y) ≡ y
else_of true x y = refl
else_of false x y = refl

module _ {R Value Array Object : Type 0} (peer : Peer R) (json : Json Value Array Object) where
  abbrev login_request : CStr → Option CStr → ℤ → Session R → ℕ × Session R
  login_request url body len s =
      perform peer json http_post url body len (record s { jwt_token = none })

  -- An action of the login forgets the token and sends one request, and never refreshes.
  act-post_login :
      (f : Session R → Result × Session R) (url : CStr) (body : Option CStr) (len : ℤ)
      (s : Session R)
      → act json (net_with peer json f) post_login (some url) body len s ≡ (
          if not (is_some body) || is_zero len then (no_data, record s { jwt_token = none }) else (
            inspect_http_code json
                (login_request url body len s).1.curl_buf
                (login_request url body len s).0,
            (login_request url body len s).1,
          ))
  unfolding act execute_network_action after_send send
  act-post_login f url body len s =
      let w = login_request url body len s in
      let code = inspect_http_code json w.1.curl_buf w.0 in
      let r = after_refresh json (net_with peer json f) post_login url body len none w.0 (f w.1) in
      rw (else_of (is_expired code) r (code, w.0, w.1)) refl

  act-clears :
      (f : Session R → Result × Session R) (url : CStr) (body : Option CStr) (len : ℤ)
      (s : Session R)
      → (act json (net_with peer json f) post_login (some url) body len s).1.jwt_token ≡ none
  unfolding perform
  act-clears f url body len s = rw (act-post_login f url body len s) (
      if-both (λ (r : Result × Session R). r.1.jwt_token ≡ none) (not (is_some body) || is_zero len)
        refl refl)

  -- After a login: with a success, the token is a copy of the "accessToken" in an answer of the
  -- server, of at most AMVP_JWT_TOKEN_MAX bytes; after an error there is no token, unless nothing
  -- was sent and the token is the one before.
  abbrev pub LoggedIn : Session R → Result × Session R → Type 0
  LoggedIn s r =
      (r.0 ≡ success
        → (jwt : CStr) × (token_too_large jwt ≡ false)
          × (r.1.jwt_token ≡ copied_token jwt)
          × (val : Value) × (json.parse_string r.1.curl_buf ≡ some val)
          × (string_of json (get_obj_from_rsp json val) (codes "accessToken") ≡ some jwt))
      × (r.0 ≢ success
          → (r.1.jwt_token ≡ none) ⊎ ((r.1.jwt_token ≡ s.jwt_token) × (r.1.sent ≡ s.sent)))

  take_token-LoggedIn :
      (s0 s : Session R) (val : Value) (t : Option CStr)
      → s.jwt_token ≡ none
      → json.parse_string s.curl_buf ≡ some val
      → string_of json (get_obj_from_rsp json val) (codes "accessToken") ≡ t
      → LoggedIn s0 (take_token t s)
  unfolding take_token
  take_token-LoggedIn s0 s val none c p t = (λ h. ground (arith, h), λ h. inl c)
  take_token-LoggedIn s0 s val (some jwt) c p t =
      if-split (LoggedIn s0) (token_too_large jwt) (λ b. (λ h. ground (arith, h), λ h. inl c))
        (λ b. (λ h. (jwt, b, refl, val, p, t), λ h. absurd (h refl)))

  parse_value-LoggedIn :
      (s0 s : Session R) (v : Option Value)
      → s.jwt_token ≡ none
      → json.parse_string s.curl_buf ≡ v
      → LoggedIn s0 (parse_value json v s)
  unfolding parse_value
  parse_value-LoggedIn s0 s none c p = (λ h. ground (arith, h), λ h. inl c)
  parse_value-LoggedIn s0 s (some val) c p = take_token-LoggedIn s0 s val _ c p refl

  after_login-LoggedIn :
      (s0 : Session R) (r : Result × Session R)
      → r.1.jwt_token ≡ none
      → LoggedIn s0 (after_login peer json r)
  unfolding after_login parse_login
  after_login-LoggedIn s0 (rv, s) c =
      if-split (LoggedIn s0) (is_success rv)
        (λ h. parse_value-LoggedIn s0 s (json.parse_string s.curl_buf) c refl)
        (λ h. (λ e. ground (arith, h, e), λ n. inl c))

  unsent-LoggedIn :
      (s0 s : Session R) (rv : Result)
      → s.jwt_token ≡ s0.jwt_token
      → s.sent ≡ s0.sent
      → is_success rv ≡ false
      → LoggedIn s0 (rv, s)
  unsent-LoggedIn s0 s rv j t b = (λ e. ground (arith, b, e), λ n. inr (j, t))

  unanswered-LoggedIn :
      (s0 s : Session R) (rv : Result)
      → s.jwt_token ≡ s0.jwt_token
      → s.sent ≡ s0.sent
      → is_success rv ≡ false
      → LoggedIn s0 (after_login peer json (rv, s))
  unfolding after_login
  unanswered-LoggedIn s0 s rv j t b = rw b (unsent-LoggedIn s0 s rv j t b)

  request-LoggedIn :
      (s0 s : Session R) (size : ℕ) (o : Option CStr) (uri text : CStr) (len : ℤ)
      → s.jwt_token ≡ s0.jwt_token
      → s.sent ≡ s0.sent
      → LoggedIn s0 (
          after_login peer json
            (request peer (login_action peer json) post_login size o uri (some text) len s))
  unfolding request
  request-LoggedIn s0 s size none uri text len j t =
      if-split (λ r. LoggedIn s0 (after_login peer json r)) (is_success (sanity_check_ctx s))
        (λ h. unanswered-LoggedIn s0 s missing_arg j t refl)
        (λ h. unanswered-LoggedIn s0 s (sanity_check_ctx s) j t h)
  request-LoggedIn s0 s size (some segment) uri text len j t =
      if-split (λ r. LoggedIn s0 (after_login peer json r)) (is_success (sanity_check_ctx s))
        (λ h. after_login-LoggedIn s0 _ (act-clears _ _ (some text) len s))
        (λ h. unanswered-LoggedIn s0 s (sanity_check_ctx s) j t h)

  send_built-LoggedIn :
      (s0 : Session R) (b : Login peer)
      → b.2.jwt_token ≡ s0.jwt_token
      → b.2.sent ≡ s0.sent
      → LoggedIn s0 (send_built peer json (login_action peer json) b)
  unfolding send_built send_with_path_seg
  send_built-LoggedIn s0 (rv, text, s) j t =
      if-split (LoggedIn s0) (is_success rv)
        (λ h.
          request-LoggedIn s0 s (attr_url_max - 1) s.path_segment (codes "login") text.0 text.1 j t)
        (λ h. unsent-LoggedIn s0 s rv j t h)

  with_totp-Kept :
      (fresh : Bool) (s : Session R) (r : Result × CStr × R)
      → ((with_totp peer fresh s r).2.jwt_token ≡ s.jwt_token)
        × ((with_totp peer fresh s r).2.sent ≡ s.sent)
  unfolding with_totp
  with_totp-Kept fresh s (rv, token, r) =
      let P = λ (b : Login peer). (b.2.jwt_token ≡ s.jwt_token) × (b.2.sent ≡ s.sent) in
      if-both P (is_success rv) (if-both P _ (refl, refl) (refl, refl)) (refl, refl)

  build_with-Kept :
      (cb : Option (R → Result × CStr × R)) (fresh : Bool) (s : Session R)
      → ((build_with peer cb fresh s).2.jwt_token ≡ s.jwt_token)
        × ((build_with peer cb fresh s).2.sent ≡ s.sent)
  unfolding build_with
  build_with-Kept none fresh s = (refl, refl)
  build_with-Kept (some cb) fresh s = with_totp-Kept fresh s (cb s.remote)

  -- After amvp_login, as a first login or as a refresh: if it returns AMVP_SUCCESS, the token of
  -- the session is the copy of the "accessToken" in the answer of the server that is in the
  -- buffer, and that is not longer than AMVP_JWT_TOKEN_MAX; if it returns an error, the session
  -- has no token, or else it has sent nothing and has the token that it had before.
  pub login_decides_token :
      (fresh : Bool) (s : Session R) → LoggedIn s (login peer json (login_action peer json) fresh s)
  unfolding login build_login
  login_decides_token fresh s =
      let (j, t) = build_with-Kept peer.totp_cb fresh s in
      send_built-LoggedIn s (build_with peer peer.totp_cb fresh s) j t

  request-network_action :
      (size : ℕ) (o : Option CStr) (uri : CStr) (body : Option CStr) (len : ℤ) (s : Session R)
      → request peer (network_action peer json) post_login size o uri body len s
        ≡ request peer (login_action peer json) post_login size o uri body len s
  unfolding request network_action
  request-network_action size none uri body len s = refl
  request-network_action size (some segment) uri body len s =
      let url = printed size (server_url peer s (segment ++ uri)) in
      let f = refresh peer json in
      rw
        (
          act-post_login f url body len s,
          act-post_login (λ (t : Session R). (internal_err, t)) url body len s,
        )
        refl

  -- A login through the actions of the network, which may call amvp_refresh, is the login that
  -- amvp_refresh makes.
  pub login-network_action :
      (fresh : Bool) (s : Session R)
      → login peer json (network_action peer json) fresh s
        ≡ login peer json (login_action peer json) fresh s
  unfolding login send_built send_with_path_seg
  login-network_action fresh s =
      let (rv, text, s') = build_login peer fresh s in
      rw
        (request-network_action (attr_url_max - 1) s'.path_segment (codes "login") (some text.0)
          text.1 s')
        refl
