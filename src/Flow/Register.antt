-- ===== src/Flow/Register.antt =====
-- amvp_append_vsid_url, amvp_parse_test_session_register and amvp_register of src/amvp.c. The
-- capabilities and the JSON that is made of them are an interface over the outside state, which
-- keeps the field `registration` too. Allocations succeed.
use libamvp.Common.{
  ℕ, zero, suc, ◌+◌, ◌-◌, ◌*◌, Bool, ◌||◌, Option, none, some, ltb, if◌then◌else◌, ℤ, codes,
}
use libamvp.Result.{Result, success, json_err, jwt_invalid, is_success}
use libamvp.SafeC.Errno.{CStr}
use libamvp.Util.StringList.{append_node}
use libamvp.Protocol.Json.{Json}
use libamvp.Env.Pages.{copied_url, get_obj_from_rsp}
use libamvp.Alg.Cipher.{cipher_value, cipher_end}
use libamvp.Flow.State.{Session, Peer}
use libamvp.Flow.Requests.{Action, send_test_session_registration, text_or_empty}
use libamvp.Flow.Login.{copied_token, token_too_large, string_of}

-- The macros expand without parentheses, to `AMVP_CIPHER_END - 1 * 2`.
abbrev pub cap_max : ℕ
cap_max = cipher_value cipher_end - 1 * 2

-- The context's `use_json` and `json_filename`, json_parse_file, amvp_build_registration_json, the
-- assignment of `registration`, and amvp_build_full_registration with its text.
pub record Registry (R Value : Type 0) : Type 0 where
  pub use_json : Bool
  pub json_filename : Option CStr
  pub parse_file : Option CStr → R → Option Value
  pub build_registration_json : R → Result × Option Value × R
  pub set_registration : Option Value → R → R
  pub build_full_registration : R → Result × (Option CStr × ℤ) × R

unfoldable pub append_vsid_url : {R : Type 0} → Session R → CStr → Result × Session R
unfolding append_node copied_url
append_vsid_url s vsid_url =
    let list = append_node s.vsid_url_list (text_or_empty (copied_url vsid_url)) in
    (success, record s { vsid_url_list = list })

-- The old token is overwritten where there is one; without one nothing is stored.
abbrev pub replaced_token : Option CStr → CStr → Option CStr
replaced_token none access_token = none
replaced_token (some old) access_token = copied_token access_token

-- An element that is no string ends the loop, and the result stays.
unfoldable pub append_next :
    {R : Type 0} → Option CStr → (Session R → Result × Session R) → Session R → Result × Session R
unfolding append_vsid_url
append_next none more s = (success, s)
append_next (some vsid_url) more s = more (append_vsid_url s vsid_url).1

module _ {Value Array Object : Type 0} (json : Json Value Array Object) where
  -- The loop over the URLs from index `i` on.
  unfoldable pub append_urls : {R : Type 0} → ℕ → ℕ → Array → Session R → Result × Session R
  unfolding append_next
  append_urls zero i arr s = (success, s)
  append_urls (suc n) i arr s = append_next (json.get_string_at arr i) (append_urls n (i + 1) arr) s

  unfoldable pub append_all : {R : Type 0} → Option Array → Session R → Result × Session R
  unfolding append_urls
  append_all none s = (success, s)
  append_all (some arr) s = append_urls (json.get_count arr) 0 arr s

  unfoldable pub array_of : Option Object → CStr → Option Array
  array_of none name = none
  array_of (some obj) name = json.get_array_of obj name

  unfoldable pub take_session_token :
      {R : Type 0} → Option CStr → Option Object → Session R → Result × Session R
  unfolding append_all array_of
  take_session_token none obj s = (json_err, s)
  take_session_token (some access_token) obj s =
      if token_too_large access_token
      then (jwt_invalid, s)
      else append_all (array_of obj (codes "vectorSetUrls"))
          (record s { jwt_token = replaced_token s.jwt_token access_token })

  unfoldable pub take_session_url :
      {R : Type 0} → Option CStr → Option Object → Session R → Result × Session R
  unfolding take_session_token string_of
  take_session_url none obj s = (json_err, s)
  take_session_url (some url) obj s =
      take_session_token (string_of json obj (codes "accessToken")) obj
        (record s { session_url = copied_url url })

  unfoldable pub parse_registered : {R : Type 0} → Option Value → Session R → Result × Session R
  unfolding take_session_url
  parse_registered none s = (json_err, s)
  parse_registered (some val) s =
      let obj = get_obj_from_rsp json val in
      take_session_url (string_of json obj (codes "url")) obj s

  unfoldable pub parse_test_session_register : {R : Type 0} → Session R → Result × Session R
  unfolding parse_registered
  parse_test_session_register s = parse_registered (json.parse_string s.curl_buf) s

  module _ {R : Type 0} (peer : Peer R) (registry : Registry R Value) where
    unfoldable pub count_in : Option Array → ℕ
    count_in none = 0
    count_in (some arr) = json.get_count arr

    -- The file is an array of at least one and at most `cap_max` objects.
    unfoldable pub file_registration : Option Value → Session R → Result × Session R
    unfolding count_in
    file_registration none s = (json_err, s)
    file_registration (some val) s =
        let count = count_in (json.get_array val) in
        if ltb count 1 || ltb cap_max count
        then (json_err, s)
        else (success, record s { remote = registry.set_registration (some val) s.remote })

    unfoldable pub built_registration : Session R → Result × Option Value × R → Result × Session R
    built_registration s (rv, val, r) =
        if is_success rv
        then (success, record s { remote = registry.set_registration val r })
        else (rv, record s { remote = r })

    unfoldable pub make_registration : Session R → Result × Session R
    unfolding file_registration built_registration
    make_registration s =
        if registry.use_json
        then file_registration (registry.parse_file registry.json_filename s.remote) s
        else built_registration s (registry.build_registration_json s.remote)

    unfoldable pub after_registration : Result × Session R → Result × Session R
    unfolding parse_test_session_register
    after_registration (rv, s) = if is_success rv then parse_test_session_register s else (rv, s)

    unfoldable pub send_registration :
        Action R → Session R → Result × (Option CStr × ℤ) × R → Result × Session R
    unfolding after_registration
    send_registration action s (rv, reg, r) =
        let s' = record s { remote = r } in
        let answer =
          after_registration (send_test_session_registration peer action reg.0 reg.1 s') in
        if is_success rv then answer else (rv, s')

    unfoldable pub full_registration : Action R → Result × Session R → Result × Session R
    unfolding send_registration
    full_registration action (rv, s) =
        let sent = send_registration action s (registry.build_full_registration s.remote) in
        if is_success rv then sent else (rv, s)

    unfoldable pub register : Action R → Session R → Result × Session R
    unfolding full_registration make_registration
    register action s = full_registration action (make_registration s)
