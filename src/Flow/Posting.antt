-- ===== src/Flow/Posting.antt =====
-- What amvp_register and amvp_login send: the POST of the registration and that of the login, whose
-- answers they parse.
use libamvp.Common.{
  Bool, ℕ, zero, suc, ◌+◌, ◌≡◌, refl, sym, ap, ◌∙◌, Option, none, some, List, ◌++◌, ℤ, if-both, ◌-◌,
  codes,
}
use libamvp.Result.{Result, success}
use libamvp.SafeC.Errno.{CStr}
use libamvp.Protocol.Json.{Json}
use libamvp.Env.Pages.{attr_url_max, get_obj_from_rsp}
use libamvp.Flow.State.{Session, Peer, Request, Method, http_post}
use libamvp.Flow.Requests.{send_login, printed, server_url, send_test_session_registration}
use libamvp.Flow.Login.{
  Login, build_login, login, send_built, after_login, parse_login, parse_value, take_token,
  network_action, token_too_large,
}
use libamvp.Flow.Register.{
  Registry, append_vsid_url, append_next, append_urls, append_all, take_session_token,
  take_session_url, parse_registered, parse_test_session_register, make_registration,
  after_registration, send_registration, full_registration, register,
}
use libamvp.Flow.Answers.{Answered}
use libamvp.Flow.Asking.{send_login-Answered, send_test_session_registration-Answered}
use libamvp.Flow.Stages.{succeeded}

-- The requests, the buffer and the outside state.
abbrev pub wire : {R : Type 0} → Session R → List Request × Option CStr × R
wire s = (s.sent, s.curl_buf, s.remote)

-- What does not change those keeps an answer.
pub Answered-wire :
    {R : Type 0} (peer : Peer R) (method : Method) (url : CStr) (body : Option CStr) (len : ℤ)
    (s u s' : Session R)
    → wire s' ≡ wire u
    → Answered peer method url body len s u
    → Answered peer method url body len s s'
Answered-wire peer method url body len s u s' k (t, e, sent, answer) =
    (t, e, ap (λ w. w.0) k ∙ sent, answer ∙ ap (λ w. (200, w.1, w.2)) (sym k))

-- The login that amvp_login builds was posted to `login`, and the server has answered with the code
-- 200 and the buffer of `s'`.
abbrev pub LoginPosted : {R : Type 0} (peer : Peer R) → Login peer → Session R → Type 0
LoginPosted peer b s' =
    (segment : CStr) × (b.2.path_segment ≡ some segment)
    × Answered peer http_post
        (printed (attr_url_max - 1) (server_url peer b.2 (segment ++ codes "login"))) (some b.1.0)
        b.1.1 b.2 s'

module _ {Value Array Object : Type 0} (json : Json Value Array Object) {R : Type 0} where
  abbrev SameWire : Session R → Result × Session R → Type 0
  SameWire s r = wire r.1 ≡ wire s

  append_next-wire :
      (o : Option CStr) (more : Session R → Result × Session R) (s : Session R)
      → ((t : Session R) → SameWire t (more t))
      → SameWire s (append_next o more s)
  unfolding append_next append_vsid_url
  append_next-wire none more s h = refl
  append_next-wire (some vsid_url) more s h = h (append_vsid_url s vsid_url).1

  append_urls-wire :
      (n i : ℕ) (arr : Array) (s : Session R) → SameWire s (append_urls json n i arr s)
  unfolding append_urls
  append_urls-wire zero i arr s = refl
  append_urls-wire (suc n) i arr s =
      append_next-wire (json.get_string_at arr i) (append_urls json n (i + 1) arr) s
        (append_urls-wire n (i + 1) arr)

  append_all-wire : (o : Option Array) (s : Session R) → SameWire s (append_all json o s)
  unfolding append_all
  append_all-wire none s = refl
  append_all-wire (some arr) s = append_urls-wire (json.get_count arr) 0 arr s

  take_session_token-wire :
      (t : Option CStr) (obj : Option Object) (s : Session R)
      → SameWire s (take_session_token json t obj s)
  unfolding take_session_token
  take_session_token-wire none obj s = refl
  take_session_token-wire (some token) obj s =
      if-both (SameWire s) (token_too_large token) refl (append_all-wire _ _)

  take_session_url-wire :
      (url : Option CStr) (obj : Option Object) (s : Session R)
      → SameWire s (take_session_url json url obj s)
  unfolding take_session_url
  take_session_url-wire none obj s = refl
  take_session_url-wire (some url) obj s = take_session_token-wire _ obj _

  parse_registered-wire :
      (v : Option Value) (s : Session R) → SameWire s (parse_registered json v s)
  unfolding parse_registered
  parse_registered-wire none s = refl
  parse_registered-wire (some val) s = take_session_url-wire _ (get_obj_from_rsp json val) s

  module _ (peer : Peer R) (registry : Registry R Value) where
    -- After the registration was made in `m`, its text was posted to `testSessions`, and the server
    -- has answered with the code 200 and the buffer of `s'`.
    abbrev pub Posted : Session R → Session R → Type 0
    Posted m s' =
        (segment : CStr) × (m.path_segment ≡ some segment)
        × Answered peer http_post
            (printed (attr_url_max - 1) (server_url peer m (segment ++ codes "testSessions")))
            (registry.build_full_registration m.remote).1.0
            (registry.build_full_registration m.remote).1.1 m s'

    send_registration-Posted :
        (m s' : Session R)
        → send_registration json peer registry
            (network_action peer json)
            m
            (registry.build_full_registration m.remote)
          ≡ (success, s')
        → Posted m s'
    unfolding send_registration after_registration parse_test_session_register server_url
    send_registration-Posted m s' h =
        let (rv, reg, r) = registry.build_full_registration m.remote in
        let m' = record m { remote = r } in
        let answer =
          send_test_session_registration peer (network_action peer json) reg.0 reg.1 m' in
        let parsed = parse_registered json (json.parse_string answer.1.curl_buf) answer.1 in
        let (built, g) = succeeded rv (after_registration json peer registry answer) m' s' h in
        let (sent, p) = succeeded answer.0 parsed answer.1 s' g in
        let (segment, at, answered) =
          send_test_session_registration-Answered peer json reg.0 reg.1 m' answer.1
            (ap (λ c. (c, answer.1)) sent) in
        let kept =
          sym (ap (λ (x : Result × Session R). wire x.1) p)
          ∙ parse_registered-wire (json.parse_string answer.1.curl_buf) answer.1 in
        (segment, at, Answered-wire peer http_post _ reg.0 reg.1 m' answer.1 s' kept answered)

    pub register-Posted :
        (s s' : Session R)
        → register json peer registry (network_action peer json) s ≡ (success, s')
        → Posted (make_registration json peer registry s).1 s'
    unfolding register full_registration
    register-Posted s s' h =
        let made = make_registration json peer registry s in
        let sent =
          send_registration json peer registry (network_action peer json) made.1
            (registry.build_full_registration made.1.remote) in
        send_registration-Posted made.1 s' (succeeded made.0 sent made.1 s' h).1

  module _ (peer : Peer R) where
    take_token-wire : (t : Option CStr) (s : Session R) → SameWire s (take_token t s)
    unfolding take_token
    take_token-wire none s = refl
    take_token-wire (some jwt) s = if-both (SameWire s) (token_too_large jwt) refl refl

    parse_value-wire : (v : Option Value) (s : Session R) → SameWire s (parse_value json v s)
    unfolding parse_value
    parse_value-wire none s = refl
    parse_value-wire (some val) s = take_token-wire _ s

    pub login-Posted :
        (fresh : Bool) (s s' : Session R)
        → login peer json (network_action peer json) fresh s ≡ (success, s')
        → LoginPosted peer (build_login peer fresh s) s'
    unfolding login send_built after_login parse_login
    login-Posted fresh s s' h =
        let (rv, text, t) = build_login peer fresh s in
        let answer = send_login peer (network_action peer json) (some text.0) text.1 t in
        let parsed = parse_value json (json.parse_string answer.1.curl_buf) answer.1 in
        let (built, g) = succeeded rv (after_login peer json answer) t s' h in
        let (sent, p) = succeeded answer.0 parsed answer.1 s' g in
        let (segment, at, answered) =
          send_login-Answered peer json (some text.0) text.1 t answer.1
            (ap (λ c. (c, answer.1)) sent) in
        let kept =
          sym (ap (λ (x : Result × Session R). wire x.1) p)
          ∙ parse_value-wire (json.parse_string answer.1.curl_buf) answer.1 in
        (
          segment,
          at,
          Answered-wire peer http_post _ (some text.0) text.1 t answer.1 s' kept answered,
        )
