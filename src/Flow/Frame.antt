-- ===== src/Flow/Frame.antt =====
-- The fields of a session that no request and no login changes.
use libamvp.Common.{ℕ, ◌≡◌, refl, Bool, Option, none, some, List, ℤ, if-both, ◌∙◌, true, ◌-◌, codes}
use libamvp.Result.{Result, internal_err, is_success}
use libamvp.SafeC.Errno.{CStr}
use libamvp.Protocol.Json.{Json}
use libamvp.Env.Pages.{attr_url_max}
use libamvp.Transport.Network.{NetAction, post_login, act}
use libamvp.Transport.Preserving.{Keeps, act-keeps}
use libamvp.Flow.State.{Session, Peer}
use libamvp.Flow.Requests.{Action, request, send_with_path_seg, send_login, sanity_check_ctx}
use libamvp.Flow.Login.{
  Login, with_totp, build_with, build_login, take_token, token_too_large, parse_value, parse_login,
  after_login, send_built, login, login_action, net_with, perform, refresh, network_action,
}

abbrev pub Fixed : Type 0
Fixed = Option CStr × ℤ × Option CStr × Option CStr × List CStr × ℤ × Bool × Option CStr

abbrev pub fixed : {R : Type 0} → Session R → Fixed
fixed s = (
  s.server_name, s.server_port, s.path_segment, s.session_url, s.vsid_url_list, s.vs_id,
  s.session_passed, s.session_file_path,
)

module _ {R Value Array Object : Type 0} (peer : Peer R) (json : Json Value Array Object) where
  -- What an action of the network may do with the fields.
  abbrev pub Frames : Action R → Type 0
  Frames action =
      (a : NetAction) (url body : Option CStr) (len : ℤ) (s : Session R)
      → fixed (action a url body len s).1 ≡ fixed s

  pub request-fixed :
      (action : Action R) (f : Frames action) (a : NetAction) (size : ℕ) (o : Option CStr)
      (uri : CStr) (body : Option CStr) (len : ℤ) (s : Session R)
      → fixed (request peer action a size o uri body len s).1 ≡ fixed s
  unfolding request
  request-fixed action f a size none uri body len s =
      if-both (λ (r : Result × Session R). fixed r.1 ≡ fixed s) (is_success (sanity_check_ctx s))
        refl refl
  request-fixed action f a size (some t) uri body len s =
      if-both (λ (r : Result × Session R). fixed r.1 ≡ fixed s) (is_success (sanity_check_ctx s))
        (f a _ body len s) refl

  take_token-fixed : (t : Option CStr) (s : Session R) → fixed (take_token t s).1 ≡ fixed s
  unfolding take_token
  take_token-fixed none s = refl
  take_token-fixed (some jwt) s =
      if-both (λ (r : Result × Session R). fixed r.1 ≡ fixed s) (token_too_large jwt) refl refl

  parse_value-fixed : (v : Option Value) (s : Session R) → fixed (parse_value json v s).1 ≡ fixed s
  unfolding parse_value
  parse_value-fixed none s = refl
  parse_value-fixed (some val) s = take_token-fixed _ s

  after_login-fixed : (r : Result × Session R) → fixed (after_login peer json r).1 ≡ fixed r.1
  unfolding after_login parse_login
  after_login-fixed (rv, s) =
      if-both (λ (r : Result × Session R). fixed r.1 ≡ fixed s) (is_success rv)
        (parse_value-fixed (json.parse_string s.curl_buf) s) refl

  with_totp-fixed :
      (fresh : Bool) (s : Session R) (r : Result × CStr × R)
      → fixed (with_totp peer fresh s r).2 ≡ fixed s
  unfolding with_totp
  with_totp-fixed fresh s (rv, token, r) =
      let P = λ (b : Login peer). fixed b.2 ≡ fixed s in
      if-both P (is_success rv) (if-both P _ refl refl) refl

  build_with-fixed :
      (cb : Option (R → Result × CStr × R)) (fresh : Bool) (s : Session R)
      → fixed (build_with peer cb fresh s).2 ≡ fixed s
  unfolding build_with
  build_with-fixed none fresh s = refl
  build_with-fixed (some cb) fresh s = with_totp-fixed fresh s (cb s.remote)

  net_with-Keeps :
      (f : Session R → Result × Session R) (c : Fixed)
      → ((s : Session R) → fixed (f s).1 ≡ fixed s)
      → Keeps (net_with peer json f) (λ s. fixed s ≡ c)
  unfolding perform
  net_with-Keeps f c h = record {
    get_keeps = λ url s p. p;
    post_keeps = λ url body len s p. p;
    put_keeps = λ url body len s p. p;
    delete_keeps = λ url s p. p;
    refresh_keeps = λ s p. h s ∙ p;
    forget_keeps = λ s p. p;
  }

  act-fixed :
      (f : Session R → Result × Session R)
      → ((s : Session R) → fixed (f s).1 ≡ fixed s)
      → Frames (act json (net_with peer json f))
  act-fixed f h a url body len s =
      act-keeps json (net_with peer json f) (λ t. fixed t ≡ fixed s) (net_with-Keeps f (fixed s) h)
        a url body len s refl

  send_built-fixed :
      (action : Action R) (f : Frames action) (b : Login peer)
      → fixed (send_built peer json action b).1 ≡ fixed b.2
  unfolding send_built send_with_path_seg
  send_built-fixed action f (rv, text, s) =
      let answer = send_login peer action (some text.0) text.1 s in
      let kept : fixed answer.1 ≡ fixed s =
        request-fixed action f post_login (attr_url_max - 1) s.path_segment (codes "login")
          (some text.0) text.1 s in
      if-both (λ (r : Result × Session R). fixed r.1 ≡ fixed s) (is_success rv)
        {x = after_login peer json answer} {y = (rv, s)} (after_login-fixed answer ∙ kept) refl

  pub login-fixed :
      (action : Action R) (f : Frames action) (fresh : Bool) (s : Session R)
      → fixed (login peer json action fresh s).1 ≡ fixed s
  unfolding login build_login
  login-fixed action f fresh s =
      send_built-fixed action f (build_login peer fresh s) ∙ build_with-fixed peer.totp_cb fresh s

  -- No action of the network changes a fixed field, not even where it logs in again.
  pub network_action-fixed : Frames (network_action peer json)
  unfolding network_action refresh
  network_action-fixed = act-fixed (refresh peer json) (
      login-fixed (login_action peer json)
        (act-fixed (λ (s : Session R). (internal_err, s)) (λ s. refl)) true)
