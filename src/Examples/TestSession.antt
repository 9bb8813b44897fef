-- ===== src/Examples/TestSession.antt =====
-- A server that answers every request of a session, for runs of src/amvp.c.
use libamvp.Common.{ℕ, true, false, Option, none, some, [], ◌==◌, codes, pos, length, if◌then◌else◌}
use libamvp.Result.{success}
use libamvp.SafeC.Errno.{CStr}
use libamvp.SafeC.Compare.{head_byte}
use libamvp.Protocol.Json.{Json}
use libamvp.Flow.State.{Session, Peer}
use libamvp.Flow.Register.{Registry}
use libamvp.Flow.Run.{Config, Services}

abbrev body_value : Option CStr → Option ℕ
body_value none = none
body_value (some t) = some (head_byte t)

abbrev string_named : CStr → Option CStr
string_named name =
    if head_byte name == b'u'
    then some (codes "/s/1")
    else (if head_byte name == b's'
        then some (codes "passed")
        else (if length name == 11
            then some (codes "token")
            else (if length name == 9 then some (codes "AMVP-AES-GCM") else none)))

-- Every answer is an array of one object, which has all that a session reads.
abbrev pub session_json : Json ℕ ℕ ℕ
session_json = record {
  parse_string = body_value;
  get_array = λ v. some v;
  get_count = λ a. 1;
  get_object = λ a i. some a;
  has_value = λ o name. false;
  get_string = λ o name. string_named name;
  get_array_of = λ o name. some o;
  get_object_of = λ o name. none;
  has_number = λ o name. false;
  get_number = λ o name. pos 0;
  get_string_at = λ a i. some (codes "/v/1");
  get_boolean = λ o name. some true;
}

abbrev pub test_peer : Peer ℕ
test_peer = record {
  perform = λ q buf r. (200, some (codes "x"), r);
  kat_resp = λ r. some (codes "{}", pos 2);
  print_int = λ n. codes "443";
  escape = λ value n. some value;
  totp_cb = none;
  login_text = λ m. (codes "[]", pos 2);
}

abbrev pub new_session : Session ℕ
new_session = record {
  server_name = some (codes "host");
  server_port = pos 443;
  path_segment = some (codes "/amv/v1/");
  jwt_token = none;
  session_url = none;
  vsid_url_list = [];
  vs_id = pos 0;
  session_passed = false;
  session_file_path = none;
  curl_buf = none;
  remote = 0;
  sent = [];
}

abbrev pub test_registry : Registry ℕ ℕ
test_registry = record {
  use_json = true;
  json_filename = some (codes "caps");
  parse_file = λ name r. some 1;
  build_registration_json = λ r. (success, some 1, r);
  set_registration = λ v r. r;
  build_full_registration = λ r. (success, (some (codes "{}"), pos 2), r);
}

abbrev pub test_services : Services ℕ ℕ ℕ
test_services = record {
  post_data = λ name s. (success, s);
  post_resources_from = λ name s. (success, s);
  mod_cert_req_run = λ s. (success, s);
  put_data_from_ctx = λ s. (success, s);
  verify_metadata = λ r. (success, r);
  set_validation = λ on r. r;
  build_validation = λ r. (success, (some (codes "{}"), pos 2), r);
  write_session_info = λ s. (success, none, s.remote);
  handle = λ h obj r. (success, r);
  write_header = λ s. (success, s.remote);
  append_set = λ v r. (success, r);
  close_file = λ r. (success, r);
  files = record {
    parse_file = λ name r. some 1;
    set_string = λ o name value. some o;
    write_file = λ v name r. (success, r);
    append_file = λ v name r. (success, r);
  };
}

abbrev pub test_config : Config
test_config = record {
  no_login = false;
  verbose = false;
  get = false;
  get_string = none;
  save_filename = none;
  post = false;
  post_filename = none;
  post_resources = false;
  post_resources_filename = none;
  mod_cert_req = false;
  delete = false;
  delete_string = none;
  vector_req = false;
  put = false;
}
