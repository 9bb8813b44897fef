-- ===== src/Flow/Growing.antt =====
-- The record of the HTTP requests only grows: what an action of the network, a request and a login
-- do to the field `sent`.
use libamvp.Common.{
  ℕ, ◌≡◌, ap, Bool, true, Option, none, some, List, ◌∷◌, ◌++◌, ℤ, if-both, ◌-◌, codes,
}
use libamvp.Result.{Result, internal_err, is_success}
use libamvp.SafeC.Errno.{CStr}
use libamvp.Protocol.Json.{Json}
use libamvp.Env.Pages.{attr_url_max}
use libamvp.Transport.Network.{NetAction, post_login, act}
use libamvp.Transport.Preserving.{Keeps, act-keeps}
use libamvp.Flow.State.{Session, Peer, Request, Method, request_of}
use libamvp.Flow.Requests.{Action, request, send_with_path_seg, send_login, sanity_check_ctx}
use libamvp.Flow.Login.{
  Login, with_totp, build_with, build_login, take_token, token_too_large, parse_value, parse_login,
  after_login, send_built, login, login_action, net_with, perform, refresh,
}

-- All requests of `earlier` were made, and others after them.
abbrev pub Extends : {R : Type 0} → List Request → Session R → Type 0
Extends earlier s = (later : List Request) × (s.sent ≡ later ++ earlier)

module _ {R Value Array Object : Type 0} (peer : Peer R) (json : Json Value Array Object)
    (c : List Request) where
  pub perform-Extends :
      (method : Method) (url : CStr) (body : Option CStr) (len : ℤ) (s : Session R)
      → Extends c s
      → Extends c (perform peer json method url body len s).1
  unfolding perform
  perform-Extends method url body len s (later, e) =
      let q = request_of method url body len s in (q ∷ later, ap (λ l. q ∷ l) e)

  -- A refresh that only sends requests makes all actions of the network do so.
  net_with-Keeps :
      (f : Session R → Result × Session R)
      → ((s : Session R) → Extends c s → Extends c (f s).1)
      → Keeps (net_with peer json f) (Extends c)
  net_with-Keeps f h = record {
    get_keeps = λ url s. perform-Extends _ url none _ s;
    post_keeps = λ url body len s. perform-Extends _ url body len s;
    put_keeps = λ url body len s. perform-Extends _ url body len s;
    delete_keeps = λ url s. perform-Extends _ url none _ s;
    refresh_keeps = h;
    forget_keeps = λ s p. p;
  }

  act-Extends :
      (f : Session R → Result × Session R)
      → ((s : Session R) → Extends c s → Extends c (f s).1)
      → (a : NetAction) (url body : Option CStr) (len : ℤ) (s : Session R) → Extends c s
      → Extends c (act json (net_with peer json f) a url body len s).1
  act-Extends f h a url body len s =
      act-keeps json (net_with peer json f) (Extends c) (net_with-Keeps f h) a url body len s

  -- An action that only sends requests makes a request do so.
  request-Extends :
      (action : Action R)
      → ((a : NetAction) (url body : Option CStr) (len : ℤ) (s : Session R)
          → Extends c s
          → Extends c (action a url body len s).1)
      → (a : NetAction) (size : ℕ) (o : Option CStr) (uri : CStr) (body : Option CStr) (len : ℤ)
        (s : Session R)
      → Extends c s
      → Extends c (request peer action a size o uri body len s).1
  unfolding request
  request-Extends action h a size none uri body len s e =
      if-both (λ (r : Result × Session R). Extends c r.1) (is_success (sanity_check_ctx s)) e e
  request-Extends action h a size (some t) uri body len s e =
      if-both (λ (r : Result × Session R). Extends c r.1) (is_success (sanity_check_ctx s))
        (h a _ body len s e) e

  take_token-Extends :
      (t : Option CStr) (s : Session R) → Extends c s → Extends c (take_token t s).1
  unfolding take_token
  take_token-Extends none s e = e
  take_token-Extends (some jwt) s e =
      if-both (λ (r : Result × Session R). Extends c r.1) (token_too_large jwt) e e

  parse_value-Extends :
      (v : Option Value) (s : Session R) → Extends c s → Extends c (parse_value json v s).1
  unfolding parse_value
  parse_value-Extends none s e = e
  parse_value-Extends (some val) s e = take_token-Extends _ s e

  after_login-Extends :
      (r : Result × Session R) → Extends c r.1 → Extends c (after_login peer json r).1
  unfolding after_login parse_login
  after_login-Extends (rv, s) e =
      if-both (λ (r : Result × Session R). Extends c r.1) (is_success rv)
        (parse_value-Extends (json.parse_string s.curl_buf) s e) e

  build_with-Extends :
      (cb : Option (R → Result × CStr × R)) (fresh : Bool) (s : Session R)
      → Extends c s
      → Extends c (build_with peer cb fresh s).2
  unfolding build_with with_totp
  build_with-Extends none fresh s e = e
  build_with-Extends (some cb) fresh s e =
      let P = λ (b : Login peer). Extends c b.2 in
      if-both P (is_success (cb s.remote).0) (if-both P _ e e) e

  send_built-Extends :
      (b : Login peer)
      → Extends c b.2
      → Extends c (send_built peer json (login_action peer json) b).1
  unfolding send_built send_with_path_seg
  send_built-Extends (rv, text, s) e =
      let answer = send_login peer (login_action peer json) (some text.0) text.1 s in
      let sent =
        request-Extends (login_action peer json)
          (act-Extends (λ (t : Session R). (internal_err, t)) (λ t p. p)) post_login
          (attr_url_max - 1) s.path_segment (codes "login") (some text.0) text.1 s e in
      if-both (λ (r : Result × Session R). Extends c r.1) (is_success rv)
        {x = after_login peer json answer} {y = (rv, s)} (after_login-Extends answer sent) e

  pub refresh-Extends : (s : Session R) → Extends c s → Extends c (refresh peer json s).1
  unfolding refresh login build_login
  refresh-Extends s e =
      send_built-Extends (build_login peer true s) (build_with-Extends peer.totp_cb true s e)
