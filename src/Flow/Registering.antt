-- ===== src/Flow/Registering.antt =====
-- What amvp_register leaves in the session: the answer of the registration, and the list of vector
-- sets where there is none.
use mathlib.Core.Path.{subst}
use libamvp.Common.{
  ◌≡◌, refl, ap, Option, none, some, List, ℤ, codes, if-split, if-both, ltb, ◌||◌, ◌-◌,
}
use libamvp.Result.{Result, is_success}
use libamvp.SafeC.Errno.{CStr}
use libamvp.Protocol.Json.{Json}
use libamvp.Env.Pages.{attr_url_max}
use libamvp.Transport.Network.{post_reg}
use libamvp.Flow.State.{Session, Peer}
use libamvp.Flow.Requests.{Action, send_test_session_registration, send_with_path_seg}
use libamvp.Flow.Login.{network_action}
use libamvp.Flow.Frame.{Frames, request-fixed, network_action-fixed}
use libamvp.Flow.Register.{
  Registry, parse_registered, parse_test_session_register, file_registration, built_registration,
  make_registration, after_registration, send_registration, full_registration, register, count_in,
  cap_max,
}
use libamvp.Flow.Registered.{Registered, refused, parse_registered-Registered}

module _ {Value Array Object : Type 0} (json : Json Value Array Object) where
  module _ {R : Type 0} (peer : Peer R) (registry : Registry R Value) where
    after_registration-Registered :
        (before : List CStr) (r : Result × Session R)
        → r.1.vsid_url_list ≡ before
        → Registered json before (after_registration json peer registry r)
    unfolding after_registration parse_test_session_register
    after_registration-Registered before (rv, s) e =
        if-split (Registered json before) (is_success rv)
          (λ h.
            subst (λ l. Registered json l (parse_registered json (json.parse_string s.curl_buf) s))
              e (parse_registered-Registered json s (json.parse_string s.curl_buf) refl))
          (λ h. refused json before s rv h e)

    send_registration-Registered :
        (action : Action R) (f : Frames peer json action) (s : Session R)
        (b : Result × (Option CStr × ℤ) × R)
        → Registered json s.vsid_url_list (send_registration json peer registry action s b)
    unfolding send_registration send_with_path_seg
    send_registration-Registered action f s (rv, reg, r) =
        let s' = record s { remote = r } in
        let kept =
          request-fixed peer json action f post_reg (attr_url_max - 1) s.path_segment
            (codes "testSessions") reg.0 reg.1 s' in
        if-split (Registered json s.vsid_url_list) (is_success rv)
          (λ h.
            after_registration-Registered s.vsid_url_list
              (send_test_session_registration peer action reg.0 reg.1 s') (ap (λ t. t.4) kept))
          (λ h. refused json s.vsid_url_list s' rv h refl)

    full_registration-Registered :
        (action : Action R) (f : Frames peer json action) (before : List CStr)
        (r : Result × Session R)
        → r.1.vsid_url_list ≡ before
        → Registered json before (full_registration json peer registry action r)
    unfolding full_registration
    full_registration-Registered action f before (rv, s) e =
        let sent =
          send_registration json peer registry action s
            (registry.build_full_registration s.remote) in
        if-split (Registered json before) (is_success rv)
          (λ h.
            subst (λ l. Registered json l sent) e
              (send_registration-Registered action f s (registry.build_full_registration s.remote)))
          (λ h. refused json before s rv h e)

    file_registration-list :
        (o : Option Value) (s : Session R)
        → (file_registration json peer registry o s).1.vsid_url_list ≡ s.vsid_url_list
    unfolding file_registration
    file_registration-list none s = refl
    file_registration-list (some val) s =
        let count = count_in json peer registry (json.get_array val) in
        if-both (λ (r : Result × Session R). r.1.vsid_url_list ≡ s.vsid_url_list)
          (ltb count 1 || ltb cap_max count) refl refl

    built_registration-list :
        (s : Session R) (b : Result × Option Value × R)
        → (built_registration json peer registry s b).1.vsid_url_list ≡ s.vsid_url_list
    unfolding built_registration
    built_registration-list s (rv, val, r) =
        if-both (λ (r : Result × Session R). r.1.vsid_url_list ≡ s.vsid_url_list) (is_success rv)
          refl refl

    make_registration-list :
        (s : Session R) → (make_registration json peer registry s).1.vsid_url_list ≡ s.vsid_url_list
    unfolding make_registration
    make_registration-list s =
        if-both (λ (r : Result × Session R). r.1.vsid_url_list ≡ s.vsid_url_list) registry.use_json
          (file_registration-list (registry.parse_file registry.json_filename s.remote) s)
          (built_registration-list s (registry.build_registration_json s.remote))

    -- After amvp_register over the actions of the network: where it returns an error, the list of
    -- vector sets is the one before; where it returns AMVP_SUCCESS, the answer in the buffer has a
    -- "url", which is copied to the session, and an "accessToken" that is not too large, which is
    -- copied to the session or not stored at all, and the strings of its "vectorSetUrls" up to
    -- the first element that is no string are copied, in their order, behind the list.
    pub register_decides :
        (s : Session R)
        → Registered json s.vsid_url_list (register json peer registry (network_action peer json) s)
    unfolding register
    register_decides s =
        full_registration-Registered (network_action peer json) (network_action-fixed peer json)
          s.vsid_url_list (make_registration json peer registry s) (make_registration-list s)
