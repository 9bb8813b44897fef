-- ===== src/Flow/Asking.antt =====
-- The requests that return AMVP_SUCCESS: the GET of the results of a vector set, the POST of a login
-- and the POST of a registration.
use libamvp.Common.{
  if◌then◌else◌, ℕ, ◌≡◌, refl, ap, ◌||◌, not, Option, none, some, [], ◌++◌, ℤ, pos, arith,
  Bool-cases, inl, inr, is_some, is_zero, ◌-◌, codes,
}
use libamvp.Result.{Result, success, no_data}
use libamvp.SafeC.Errno.{CStr}
use libamvp.Protocol.Json.{Json}
use libamvp.Env.Pages.{attr_url_max}
use libamvp.Transport.Network.{
  NetAction, get, post, get_vs_result, post_login, post_reg, send, send_again,
  execute_network_action, act, drop_code,
}
use libamvp.Flow.State.{Session, Peer, Method, http_get, http_post}
use libamvp.Flow.Requests.{
  send_login, send_with_path_seg, send_test_session_registration, retrieve_vector_set_result,
  request, printed, server_url, sanity_check_ctx,
}
use libamvp.Flow.Login.{net_with, refresh, network_action}
use libamvp.Flow.Stages.{succeeded, taken, passed_over}
use libamvp.Flow.Answers.{Answered, after_send-Answered, after_login-Answered}

module _ {R : Type 0} (peer : Peer R) {Value Array Object : Type 0}
    (json : Json Value Array Object) where
  dropped :
      (r : Result × ℕ × Session R) (s' : Session R)
      → drop_code r ≡ (success, s')
      → r ≡ (success, r.1, s')
  dropped (rv, rc, w) s' h = ap (λ (x : Result × Session R). (x.0, rc, x.1)) h

  get_vs_result-Answered :
      (url : CStr) (s s' : Session R)
      → network_action peer json get_vs_result (some url) none (pos 0) s ≡ (success, s')
      → Answered peer http_get url none (pos 0) s s'
  unfolding network_action act execute_network_action send send_again
  get_vs_result-Answered url s s' h =
      after_send-Answered peer json get http_get url none (pos 0) s s s' _ (λ rc t. refl) ([], refl)
        (dropped _ s' h)

  -- The two actions with data that are refused without it.
  with_data :
      (body : Option CStr) (len : ℤ) (s s' : Session R) (sent : Result × Session R)
      → (if not (is_some body) || is_zero len then (no_data, s) else sent) ≡ (success, s')
      → sent ≡ (success, s')
  with_data body len s s' sent h =
      let refused = not (is_some body) || is_zero len in
      elim (Bool-cases refused) [
        | inl is ↦ absurd (
            let e = ap (λ (x : Result × Session R). x.0) (taken refused (no_data, s) sent is h) in
            ground (arith, e))
        | inr isnt ↦ passed_over refused (no_data, s) sent isnt h
      ]

  post_login-Answered :
      (url : CStr) (body : Option CStr) (len : ℤ) (s s' : Session R)
      → network_action peer json post_login (some url) body len s ≡ (success, s')
      → Answered peer http_post url body len s s'
  unfolding network_action act execute_network_action send
  post_login-Answered url body len s s' h =
      let net = net_with peer json (refresh peer json) in
      let t = record s { jwt_token = none } in
      after_login-Answered peer json url body len s t s' _ ([], refl)
        (dropped _ s' (
          with_data body len t s'
            (drop_code (execute_network_action json net post_login url body len t)) h))

  post_reg-Answered :
      (url : CStr) (body : Option CStr) (len : ℤ) (s s' : Session R)
      → network_action peer json post_reg (some url) body len s ≡ (success, s')
      → Answered peer http_post url body len s s'
  unfolding network_action act execute_network_action send send_again
  post_reg-Answered url body len s s' h =
      let net = net_with peer json (refresh peer json) in
      after_send-Answered peer json post http_post url body len s s s' _ (λ rc t. refl) ([], refl)
        (dropped _ s' (
          with_data body len s s' (drop_code (execute_network_action json net post url body len s))
            h))

  request-Answered :
      (a : NetAction) (method : Method) (size : ℕ) (o : Option CStr) (suffix : CStr)
      (body : Option CStr) (len : ℤ) (s s' : Session R)
      → ((url : CStr)
          → network_action peer json a (some url) body len s ≡ (success, s')
          → Answered peer method url body len s s')
      → request peer (network_action peer json) a size o suffix body len s ≡ (success, s')
      → (base : CStr) × (o ≡ some base)
        × Answered peer method (printed size (server_url peer s (base ++ suffix))) body len s s'
  unfolding request
  request-Answered a method size none suffix body len s s' acts h =
      absurd (ground (arith, ap (λ (x : Result × Session R). x.0) h))
  request-Answered a method size (some base) suffix body len s s' acts h =
      let url = printed size (server_url peer s (base ++ suffix)) in
      let done = network_action peer json a (some url) body len s in
      (base, refl, acts url (succeeded (sanity_check_ctx s) done s s' h).1)

  pub retrieve_vector_set_result-Answered :
      (url : Option CStr) (s s' : Session R)
      → retrieve_vector_set_result peer (network_action peer json) url s ≡ (success, s')
      → (base : CStr) × (url ≡ some base)
        × Answered peer http_get
            (printed (attr_url_max - 1) (server_url peer s (base ++ codes "/results")))
            none
            (pos 0)
            s
            s'
  retrieve_vector_set_result-Answered url s s' =
      request-Answered get_vs_result http_get (attr_url_max - 1) url (codes "/results") none (pos 0)
        s s' (λ u. get_vs_result-Answered u s s')

  pub send_test_session_registration-Answered :
      (body : Option CStr) (len : ℤ) (s s' : Session R)
      → send_test_session_registration peer (network_action peer json) body len s ≡ (success, s')
      → (segment : CStr) × (s.path_segment ≡ some segment)
        × Answered peer http_post
            (printed (attr_url_max - 1) (server_url peer s (segment ++ codes "testSessions")))
            body
            len
            s
            s'
  unfolding send_with_path_seg
  send_test_session_registration-Answered body len s s' =
      request-Answered post_reg http_post (attr_url_max - 1) s.path_segment (codes "testSessions")
        body len s s' (λ u. post_reg-Answered u body len s s')

  pub send_login-Answered :
      (body : Option CStr) (len : ℤ) (s s' : Session R)
      → send_login peer (network_action peer json) body len s ≡ (success, s')
      → (segment : CStr) × (s.path_segment ≡ some segment)
        × Answered peer http_post
            (printed (attr_url_max - 1) (server_url peer s (segment ++ codes "login")))
            body
            len
            s
            s'
  unfolding send_with_path_seg
  send_login-Answered body len s s' =
      request-Answered post_login http_post (attr_url_max - 1) s.path_segment (codes "login") body
        len s s' (λ u. post_login-Answered u body len s s')
