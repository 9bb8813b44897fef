-- ===== src/Flow/Ending.antt =====
-- The end of a session in src/amvp.c: amvp_parse_validation, amvp_validate_test_session and
-- amvp_cert_req. The files and amvp_build_validation are interfaces over the outside state.
use libamvp.Common.{Bool, Option, none, some, if◌then◌else◌, ℤ, pos, codes, length, is_some, ◌+◌}
use libamvp.Result.{Result, success, json_err, malformed_json, is_success}
use libamvp.SafeC.Errno.{CStr}
use libamvp.Protocol.Json.{Json}
use libamvp.Env.Pages.{first_object, get_obj_from_rsp}
use libamvp.Flow.State.{Session, Peer}
use libamvp.Flow.Requests.{Action, retrieve_docs, transport_put_validation}
use libamvp.Flow.Login.{string_of}

pub record Files (R Value Object : Type 0) : Type 0 where
  pub parse_file : CStr → R → Option Value
  -- json_object_set_string and the value that wraps the object
  pub set_string : Object → CStr → CStr → Option Value
  pub write_file : Value → CStr → R → Result × R  -- amvp_json_serialize_to_file_pretty_w
  pub append_file : Option Value → CStr → R → Result × R  -- amvp_json_serialize_to_file_pretty_a

abbrev pub implementation_urls : CStr
implementation_urls =
    codes "[{ \"implementationUrls\": [\"/acvp/v1/1234\", \"/esv/v1/5678\", \"amv/v1/13780\" ] }]"

module _ {Value Array Object : Type 0} (json : Json Value Array Object) {R : Type 0}
    (files : Files R Value Object) where
  -- The closing bracket is written whatever becomes of it.
  unfoldable pub close_written : CStr → Session R → Result × R → Result × Session R
  close_written path s (rv, r) =
      if is_success rv
      then (rv, record s { remote = (files.append_file none path r).1 })
      else (rv, record s { remote = r })

  unfoldable pub write_changed : CStr → Session R → Option Value → Result × Session R
  unfolding close_written
  write_changed path s none = (success, s)
  write_changed path s (some val) = close_written path s (files.write_file val path s.remote)

  -- The object of the session's file must have a URL.
  unfoldable pub save_url : CStr → CStr → Option Object → Session R → Result × Session R
  unfolding write_changed
  save_url path url none s = (success, s)
  save_url path url (some obj) s =
      let saved = write_changed path s (files.set_string obj (codes "validationRequestUrl") url) in
      if is_some (json.get_string obj (codes "url")) then saved else (success, s)

  unfoldable pub first_of : Option Value → Option Object
  unfolding first_object
  first_of none = none
  first_of (some val) = first_object json (json.get_array val)

  -- The URL is added to the file of the session, where there is one.
  unfoldable pub save_to_file : Option CStr → CStr → Session R → Result × Session R
  unfolding save_url first_of
  save_to_file none url s = (success, s)
  save_to_file (some path) url s = save_url path url (first_of (files.parse_file path s.remote)) s

  unfoldable pub validation_strings : Option CStr → Option CStr → Session R → Result × Session R
  unfolding save_to_file
  validation_strings none status s = (json_err, s)
  validation_strings (some url) none s = (json_err, s)
  validation_strings (some url) (some status) s = save_to_file s.session_file_path url s

  unfoldable pub validation_value : Option Value → Session R → Result × Session R
  unfolding validation_strings string_of
  validation_value none s = (json_err, s)
  validation_value (some val) s =
      let obj = get_obj_from_rsp json val in
      validation_strings (string_of json obj (codes "url")) (string_of json obj (codes "status")) s

  unfoldable pub parse_validation : Session R → Result × Session R
  unfolding validation_value
  parse_validation s = validation_value (json.parse_string s.curl_buf) s

  module _ (peer : Peer R) (action : Action R) where
    unfoldable pub then_parse : Result × Session R → Result × Session R
    unfolding parse_validation
    then_parse (rv, s) = if is_success rv then parse_validation s else (rv, s)

    unfoldable pub put_validation_text : Option CStr → ℤ → Session R → Result × Session R
    unfolding then_parse transport_put_validation
    put_validation_text text len s = then_parse (transport_put_validation peer action text len s)

    unfoldable pub put_built : Session R → Result × (Option CStr × ℤ) × R → Result × Session R
    unfolding put_validation_text
    put_built s (rv, text, r) =
        let s' = record s { remote = r } in
        let answer = put_validation_text text.0 text.1 s' in
        if is_success rv then answer else (rv, s')

    -- The second argument is amvp_build_validation. A session that has not passed is no error.
    unfoldable pub validate_test_session :
        (R → Result × (Option CStr × ℤ) × R) → Session R → Result × Session R
    unfolding put_built
    validate_test_session build_validation s =
        let put = put_built s (build_validation s.remote) in
        if s.session_passed then put else (success, s)

    -- The length sent is that of the array, its terminator included.
    unfoldable pub docs_value : Bool → Option Value → Session R → Result × Session R
    unfolding put_validation_text first_of
    docs_value mod_cert_req none s = (json_err, s)
    docs_value mod_cert_req (some val) s =
        let put =
          put_validation_text (some implementation_urls) (pos (length implementation_urls + 1)) s in
        if is_some (first_of (some val))
        then (if mod_cert_req then put else (success, s))
        else (malformed_json, s)

    unfoldable pub after_docs : Bool → Result × Session R → Result × Session R
    unfolding docs_value
    after_docs mod_cert_req (rv, s) =
        if is_success rv then docs_value mod_cert_req (json.parse_string s.curl_buf) s else (rv, s)

    unfoldable pub cert_req : Bool → Session R → Result × Session R
    unfolding after_docs
    cert_req mod_cert_req s = after_docs mod_cert_req (retrieve_docs peer action s.session_url s)
