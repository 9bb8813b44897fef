-- ===== src/Flow/Requests.antt =====
-- The requests of src/amvp_transport.c: sanity_check_ctx, amvp_send_with_path_seg and the
-- functions up to amvp_transport_get, built with curl. A context is not NULL here, allocations
-- succeed and curl_easy_init does not fail. The action of the network is a parameter.
use libamvp.Common.{
  ℕ, ◌+◌, ◌-◌, ◌^◌, ◌||◌, not, Option, none, some, List, [], ◌∷◌, ◌++◌, ltb, if◌then◌else◌, ℤ, pos,
  is_zero, is_some, take, length, codes,
}
use libamvp.Result.{Result, success, transport_fail, missing_arg, invalid_arg, is_success}
use libamvp.SafeC.Errno.{CStr}
use libamvp.SafeC.Compare.{strnlen_s}
use libamvp.Env.Pages.{attr_url_max}
use libamvp.Transport.Network.{
  NetAction, get, get_vs, get_docs, get_vs_result, get_vs_sample, post, post_login, post_reg,
  post_vs_resp, put_validation, delete,
}
use libamvp.Flow.State.{Session, Peer}

unfoldable pub sanity_check_ctx : {R : Type 0} → Session R → Result
sanity_check_ctx s =
    if is_zero s.server_port || not (is_some s.server_name) then missing_arg else success

abbrev pub text_or_empty : Option CStr → CStr
text_or_empty none = []
text_or_empty (some t) = t

-- `snprintf(p, size, ...)` of a text leaves room for the terminator.
abbrev pub printed : ℕ → CStr → CStr
printed size text = take (size - 1) text

abbrev pub Params : Type 0
Params = List (CStr × CStr)

-- The buffer of amvp_transport_get and the length that `snprintf` counted.
pub record Url : Type 0 where
  pub text : CStr
  pub len : ℕ

-- amvp_network_action with a context.
abbrev pub Action : Type 0 → Type 0
Action R = NetAction → Option CStr → Option CStr → ℤ → Session R → Result × Session R

pub data Built : Type 0 where
  overrun : Built  -- a write past the buffer
  not_escaped : Built
  built : CStr → Built

module _ {R : Type 0} (peer : Peer R) where
  -- `https://%s:%d` of the server's name and port, and what follows.
  unfoldable pub server_url : Session R → CStr → CStr
  server_url s rest =
      codes "https://"
      ++ (text_or_empty s.server_name ++ (codes ":" ++ (peer.print_int s.server_port ++ rest)))

  -- `len += snprintf(full_url + len, rem_space, ...)`, where a negative space is a huge size.
  unfoldable pub append_text : Url → CStr → Option Url
  append_text u t =
      if ltb attr_url_max u.len
      then none
      else some
          (record { text = u.text ++ printed (attr_url_max - u.len) t; len = u.len + length t })

  -- `rem_space` as a size.
  unfoldable pub space : Url → ℕ
  space u = if ltb attr_url_max u.len then 2 ^ 64 - (u.len - attr_url_max) else attr_url_max - u.len

  unfoldable pub escaped : Url → CStr → Option CStr
  unfolding space
  escaped u value = peer.escape value (strnlen_s (some value) (space u))

  unfoldable pub after_value : Option Url → (Url → Built) → Params → Built
  after_value none more rest = overrun
  after_value (some u) more [] = built u.text
  after_value (some u) more (p ∷ rest) =
      let next = more u in if ltb u.len attr_url_max then next else built u.text

  unfoldable pub append_value : Url → Option CStr → (Url → Built) → Params → Built
  unfolding append_text after_value
  append_value u none more rest = not_escaped
  append_value u (some value) more rest = after_value (append_text u value) more rest

  unfoldable pub after_key : Option Url → CStr → (Url → Built) → Params → Built
  unfolding append_value escaped
  after_key none value more rest = overrun
  after_key (some u) value more rest = append_value u (escaped u value) more rest

  -- The loop over the parameters; `joint` is `&` from the second one on.
  unfoldable pub params_loop : Params → CStr → Url → Built
  unfolding append_text after_key
  params_loop [] joint u = built u.text
  params_loop ((key, value) ∷ rest) joint u =
      after_key (append_text u (joint ++ key)) value (params_loop rest (codes "&")) rest

  unfoldable pub full_url : Session R → CStr → Params → Built
  unfolding server_url params_loop
  full_url s url params =
      let base = server_url s url in
      params_loop params [] (record { text = printed attr_url_max base; len = length base })

  module _ (action : Action R) where
    -- The functions that only check their arguments and print the URL.
    unfoldable pub request :
        NetAction → ℕ → Option CStr → CStr → Option CStr → ℤ → Session R → Result × Session R
    unfolding sanity_check_ctx server_url
    request act size none suffix body len s =
        let rv = sanity_check_ctx s in if is_success rv then (missing_arg, s) else (rv, s)
    request act size (some uri) suffix body len s =
        let rv = sanity_check_ctx s in
        let url = printed size (server_url s (uri ++ suffix)) in
        let done = action act (some url) body len s in if is_success rv then done else (rv, s)

    -- amvp_send_with_path_seg: the path segment comes before the resource.
    unfoldable pub send_with_path_seg :
        NetAction → CStr → Option CStr → ℤ → Session R → Result × Session R
    unfolding request
    send_with_path_seg act uri body len s =
        request act (attr_url_max - 1) s.path_segment uri body len s

    abbrev pub send_test_session_registration : Option CStr → ℤ → Session R → Result × Session R
    send_test_session_registration = send_with_path_seg post_reg (codes "testSessions")

    abbrev pub send_login : Option CStr → ℤ → Session R → Result × Session R
    send_login = send_with_path_seg post_login (codes "login")

    abbrev pub submit_vector_responses : Option CStr → Session R → Result × Session R
    submit_vector_responses url =
        request post_vs_resp (attr_url_max - 1) url (codes "/results") none (pos 0)

    abbrev pub transport_post : Option CStr → Option CStr → ℤ → Session R → Result × Session R
    transport_post uri = request post (attr_url_max - 1) uri []

    abbrev pub retrieve_vector_set : Option CStr → Session R → Result × Session R
    retrieve_vector_set url = request get_vs (attr_url_max - 1) url [] none (pos 0)

    abbrev pub retrieve_docs : Option CStr → Session R → Result × Session R
    retrieve_docs url = request get_docs (attr_url_max - 1) url (codes "/docs") none (pos 0)

    abbrev pub retrieve_vector_set_result : Option CStr → Session R → Result × Session R
    retrieve_vector_set_result url =
        request get_vs_result (attr_url_max - 1) url (codes "/results") none (pos 0)

    abbrev pub retrieve_expected_result : Option CStr → Session R → Result × Session R
    retrieve_expected_result url =
        request get_vs_sample attr_url_max url (codes "/expected") none (pos 0)

    abbrev pub transport_put : Option CStr → Option CStr → ℤ → Session R → Result × Session R
    transport_put endpoint = request put_validation (attr_url_max - 1) endpoint []

    abbrev pub transport_delete : Option CStr → Session R → Result × Session R
    transport_delete endpoint = request delete (attr_url_max - 1) endpoint [] none (pos 0)

    unfoldable pub transport_put_validation : Option CStr → ℤ → Session R → Result × Session R
    unfolding request
    transport_put_validation none len s = (invalid_arg, s)
    transport_put_validation (some text) len s = transport_put s.session_url (some text) len s

    unfoldable pub get_built : Built → Session R → Option (Result × Session R)
    get_built overrun s = none
    get_built not_escaped s = some (transport_fail, s)
    get_built (built url) s = some (action get (some url) none (pos 0) s)

    -- amvp_transport_get; `none` is a write past the end of the buffer.
    unfoldable pub transport_get : Option CStr → Params → Session R → Option (Result × Session R)
    unfolding sanity_check_ctx full_url get_built
    transport_get none params s =
        let rv = sanity_check_ctx s in some (if is_success rv then missing_arg else rv, s)
    transport_get (some url) params s =
        let rv = sanity_check_ctx s in
        let answer = get_built (full_url s url params) s in
        if is_success rv then answer else some (rv, s)
