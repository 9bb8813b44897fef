-- ===== src/Flow/Answers.antt =====
-- What an action of the network has sent, and which answer it leaves, when it returns AMVP_SUCCESS.
use mathlib.Core.Path.{subst}
use libamvp.Common.{
  ℕ, ◌≡◌, refl, sym, ap, ◌∙◌, false, ◌&&◌, not, Option, none, ◌∷◌, ℤ, arith, Bool-cases, inl, inr,
}
use libamvp.Result.{Result, success}
use libamvp.SafeC.Errno.{CStr}
use libamvp.Protocol.Json.{Json}
use libamvp.Transport.Network.{
  NetAction, post_login, inspect, inspected, send_again, after_refresh, after_send, is_expired,
  is_login,
}
use libamvp.Transport.Codes.{inspect_http_code-success}
use libamvp.Flow.State.{Session, Peer, Method, http_post, request_of}
use libamvp.Flow.Login.{net_with, perform, refresh}
use libamvp.Flow.Growing.{Extends, perform-Extends, refresh-Extends}
use libamvp.Flow.Stages.{taken, passed_over}

module _ {R : Type 0} (peer : Peer R) where
  -- The last request of `s'` was made after all those of `s`, with the method, the URL and the
  -- body, and the server has answered it with the code 200 and the buffer of `s'`.
  abbrev pub Answered : Method → CStr → Option CStr → ℤ → Session R → Session R → Type 0
  Answered method url body len s s' =
      (t : Session R) × Extends s.sent t
      × (s'.sent ≡ request_of method url body len t ∷ t.sent)
      × (peer.perform (request_of method url body len t) t.curl_buf t.remote
          ≡ (200, s'.curl_buf, s'.remote))

  module _ {Value Array Object : Type 0} (json : Json Value Array Object) where
    performed :
        (method : Method) (url : CStr) (body : Option CStr) (len : ℤ) (s t s' : Session R) (rc : ℕ)
        → Extends s.sent t
        → perform peer json method url body len t ≡ (rc, s')
        → inspect json (net_with peer json (refresh peer json)) rc s' ≡ success
        → Answered method url body len s s'
    unfolding perform
    performed method url body len s t s' rc e p ok =
        let q = request_of method url body len t in
        let code = inspect_http_code-success json s'.curl_buf rc ok in
        (
          t,
          e,
          sym (ap (λ r. r.1.sent) p),
          ap (λ (r : ℕ × Session R). (r.0, r.1.curl_buf, r.1.remote)) p
              ∙ ap (λ c. (c, s'.curl_buf, s'.remote)) code,
        )

    inspected-Answered :
        (method : Method) (url : CStr) (body : Option CStr) (len : ℤ) (s t s' : Session R) (rc : ℕ)
        (r : ℕ × Session R)
        → Extends s.sent t
        → perform peer json method url body len t ≡ r
        → inspected json (net_with peer json (refresh peer json)) r ≡ (success, rc, s')
        → Answered method url body len s s'
    unfolding inspected
    inspected-Answered method url body len s t s' rc r e p h =
        subst (Answered method url body len s) (ap (λ (x : Result × ℕ × Session R). x.2) h) (
          performed method url body len s t r.1 r.0 e p
            (ap (λ (x : Result × ℕ × Session R). x.0) h))

    after_refresh-Answered :
        (a : NetAction) (method : Method) (url : CStr) (body : Option CStr) (len : ℤ)
        (s s' : Session R) (rc rc' : ℕ) (r : Result × Session R)
        → ((t : Session R)
            → perform peer json method url body len t
              ≡ send_again json (net_with peer json (refresh peer json)) a url body len none rc t)
        → Extends s.sent r.1
        → after_refresh json (net_with peer json (refresh peer json)) a url body len none rc r
          ≡ (success, rc', s')
        → Answered method url body len s s'
    unfolding after_refresh inspected
    after_refresh-Answered a method url body len s s' rc rc' (success, t) again e h =
        inspected-Answered method url body len s t s' rc' _ e (again t) h
    after_refresh-Answered a method url body len s s' rc rc' (rv, t) again e h =
        absurd (let b = ap (λ (x : Result × ℕ × Session R). x.0) h in ground (arith, b))

    -- Whether or not the session is refreshed, the last request is that of the action.
    pub after_send-Answered :
        (a : NetAction) (method : Method) (url : CStr) (body : Option CStr) (len : ℤ)
        (s t s' : Session R) (rc : ℕ)
        → ((rc : ℕ) (t : Session R)
            → perform peer json method url body len t
              ≡ send_again json (net_with peer json (refresh peer json)) a url body len none rc t)
        → Extends s.sent t
        → after_send json
            (net_with peer json (refresh peer json))
            a
            url
            body
            len
            none
            (perform peer json method url body len t)
          ≡ (success, rc, s')
        → Answered method url body len s s'
    unfolding after_send inspected
    after_send-Answered a method url body len s t s' rc again e h =
        let net = net_with peer json (refresh peer json) in
        let sent = perform peer json method url body len t in
        let expired = is_expired (inspect json net sent.0 sent.1) && not (is_login a) in
        let renewed =
          after_refresh json net a url body len none sent.0 (refresh peer json sent.1) in
        let here = inspected json net sent in
        elim (Bool-cases expired) [
          | inl is ↦
              after_refresh-Answered a method url body len s s' sent.0 rc (refresh peer json sent.1)
                (again sent.0)
                (refresh-Extends peer json s.sent sent.1
                  (perform-Extends peer json s.sent method url body len t e))
                (taken expired renewed here is h)
          | inr isnt ↦
              inspected-Answered method url body len s t s' rc sent e refl
                (passed_over expired renewed here isnt h)
        ]

    -- A login sends no second request: it is not refreshed.
    pub after_login-Answered :
        (url : CStr) (body : Option CStr) (len : ℤ) (s t s' : Session R) (rc : ℕ)
        → Extends s.sent t
        → after_send json
            (net_with peer json (refresh peer json))
            post_login
            url
            body
            len
            none
            (perform peer json http_post url body len t)
          ≡ (success, rc, s')
        → Answered http_post url body len s s'
    unfolding after_send inspected
    after_login-Answered url body len s t s' rc e h =
        let net = net_with peer json (refresh peer json) in
        let sent = perform peer json http_post url body len t in
        let expired = is_expired (inspect json net sent.0 sent.1) in
        let renewed =
          after_refresh json net post_login url body len none sent.0 (refresh peer json sent.1) in
        inspected-Answered http_post url body len s t s' rc sent e refl
          (passed_over (expired && false) renewed (inspected json net sent) (ground arith) h)
