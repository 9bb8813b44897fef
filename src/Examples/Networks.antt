-- ===== src/Examples/Networks.antt =====
-- Runs of the network actions of src/amvp_transport.c and of the error handling of src/amvp.c.
use libamvp.Common.{
  length, ◌<◌, true, ℕ, ◌+◌, ◌≤◌, ◌≡◌, refl, ap, false, none, some, [], ◌∷◌, arith, codes, pos,
  if◌then◌else◌, inr, ◌==◌,
}
use libamvp.Transport.Expired.{inspect_http_code_expired}
use libamvp.Result.{jwt_expired, Result, success}
use libamvp.SafeC.Errno.{CStr}
use libamvp.Protocol.Json.{Json}
use libamvp.SafeC.Compare.{strstr_s, strstr, is_prefix, strnlen_s, strnlen}
use libamvp.SafeC.Copy.{strncpy_s, nul_or_copy, copy_into, strncpy_loop, finish_copy}
use libamvp.Protocol.Errors.{
  ProtocolError, auth, is_protocol_error_message, is_error_array, has_version, root_array,
  on_server, handle_protocol_error,
}
use libamvp.Protocol.Parse.{category_of, parse_protocol_error}
use libamvp.Protocol.Parsing.{IsMessage, IsEntry, parse_protocol_error_faults}
use libamvp.Protocol.Handling.{handle_protocol_error_hangs}
use libamvp.Transport.Network.{
  get, delete, Net, inspect_http_code, after_send, after_refresh, send_again, inspected, send,
  match_error, match_copy, match_jwt, second_error, error_of, execute_network_action, Receiver,
  curl_write_callback,
}
use libamvp.Transport.Codes.{execute_network_action-success, execute_network_action-delete}
use libamvp.Transport.Refreshing.{Counts, execute_network_action-refreshes}
use libamvp.Transport.Receiving.{Holds, curl_write_callback_overflows}

-- A parser that sees in every text an array with one error string, and no protocol error.
abbrev test_json : Json CStr CStr CStr
test_json = record {
  parse_string = λ s. s;
  get_array = λ v. some v;
  get_count = λ a. 2;
  get_object = λ a i. some a;
  has_value = λ o name. false;
  get_string = λ o name. some o;
  get_array_of = λ o name. none;
  get_object_of = λ o name. none;
  has_number = λ o name. true;
  get_number = λ o name. pos 1;
  get_string_at = λ a i. none;
  get_boolean = λ o name. none;
}

-- The state is the number of refreshes; the server accepts a request after the first one.
abbrev answer : ℕ → ℕ × ℕ
answer w = (if w == 0 then 401 else 200, w)

abbrev test_net : Net ℕ
test_net = record {
  http_get = λ url w. answer w;
  http_post = λ url body len w. answer w;
  http_put = λ url body len w. answer w;
  http_delete = λ url w. answer w;
  curl_buf = λ w. some (codes "JWT expired");
  serialize = λ w. none;
  refresh = λ w. (success, w + 1);
  forget_token = λ w. w;
}

abbrev url : CStr
url = codes "/x"

test_net-Counts : Counts test_net (λ w. w)
test_net-Counts = record {
  get_keeps = λ u w. refl;
  post_keeps = λ u body len w. refl;
  put_keeps = λ u body len w. refl;
  delete_keeps = λ u w. refl;
  refresh_adds = λ w. refl;
}

get_run : execute_network_action test_json test_net get url none (pos 0) 0 ≡ (success, 200, 1)
unfolding execute_network_action after_send after_refresh send_again inspected send
    inspect_http_code match_error match_copy match_jwt strstr_s strstr is_prefix strncpy_s
    nul_or_copy copy_into strncpy_loop finish_copy strnlen_s strnlen second_error error_of
    is_protocol_error_message is_error_array has_version root_array
get_run = refl

execute_network_action-success_example :
    (execute_network_action test_json test_net get url none (pos 0) 0).1 ≡ 200
execute_network_action-success_example =
    execute_network_action-success test_json test_net get url none (pos 0) 0
      (ap (λ (r : Result × ℕ × ℕ). r.0) get_run)

execute_network_action-delete_example :
    (execute_network_action test_json test_net delete url none (pos 0) 0).1 ≡ 401
execute_network_action-delete_example =
    execute_network_action-delete test_json test_net url none (pos 0) 0

execute_network_action-refreshes_example :
    (execute_network_action test_json test_net get url none (pos 0) 0).2 ≤ 0 + 1
execute_network_action-refreshes_example =
    execute_network_action-refreshes test_json test_net (λ w. w) test_net-Counts get url none
      (pos 0) 0

handle_protocol_error_hangs_example :
    handle_protocol_error {W = ℕ}
      (λ w. (success, w))
      1000
      (some record {
        category = on_server;
        category_desc = codes "down";
        errors = record { code = pos 7; desc = [] } ∷ [];
      })
      0
    ≡ none
handle_protocol_error_hangs_example =
    handle_protocol_error_hangs (λ w. (success, w)) 1000 on_server (codes "down")
      record { code = pos 7; desc = [] } [] 0 (inr (omega arith, omega arith))

abbrev receiver : Receiver
receiver = record { curl_buf = some (b'a' ∷ b'b' ∷ 0 ∷ 0 ∷ []); curl_read_ctr = 2 }

receiver-Holds : Holds 4 (codes "ab") receiver
receiver-Holds = record { fills = refl; counted = refl }

curl_write_callback_overflows_example : curl_write_callback 4 (codes "cd") 1 receiver ≡ none
curl_write_callback_overflows_example =
    curl_write_callback_overflows 4 (codes "ab") (codes "cd") receiver receiver-Holds (omega arith)

-- A parser that sees in a text as many errors as the text has bytes, of category and code 1.
abbrev counting_json : Json ℕ ℕ ℕ
counting_json = record {
  parse_string = λ s. elim s [ none ↦ none | some t ↦ some (length t) ];
  get_array = λ v. some v;
  get_count = λ a. a;
  get_object = λ a i. some a;
  has_value = λ o name. true;
  get_string = λ o name. some (codes "bad");
  get_array_of = λ o name. some o;
  get_object_of = λ o name. none;
  has_number = λ o name. true;
  get_number = λ o name. pos 1;
  get_string_at = λ a i. none;
  get_boolean = λ o name. none;
}

counting_json-IsMessage : (buf : CStr) → IsMessage counting_json buf auth (codes "bad") (length buf)
unfolding category_of
counting_json-IsMessage buf = record {
  root = length buf;
  pair = length buf;
  obj = length buf;
  parsed = refl;
  is_array = refl;
  second = refl;
  numbered = refl;
  categorised = refl;
  described = refl;
  short = omega arith;
  listed = refl;
}

counting_json-IsEntry : (n i : ℕ) → n < 20 → IsEntry counting_json n i (pos 1)
counting_json-IsEntry n i h = record {
  obj = n;
  texts = n;
  present = refl;
  numbered = refl;
  coded = refl;
  listed = refl;
  few = h;
}

parse_protocol_error_faults_example : parse_protocol_error counting_json (some (codes "xy")) ≡ none
parse_protocol_error_faults_example =
    parse_protocol_error_faults counting_json (codes "xy") auth (codes "bad") 2 (pos 1) (pos 1)
      (counting_json-IsMessage (codes "xy")) (omega arith) (omega arith)
      (counting_json-IsEntry 2 0 (omega arith)) (counting_json-IsEntry 2 1 (omega arith))

expired_body : is_protocol_error_message test_json (some (codes "JWT expired: log in")) ≡ false
unfolding is_protocol_error_message is_error_array has_version root_array
expired_body = refl

inspect_http_code_expired_example :
    inspect_http_code test_json (some (codes "JWT expired: log in")) 401 ≡ jwt_expired
inspect_http_code_expired_example =
    inspect_http_code_expired test_json (codes "JWT expired: log in") (codes "JWT expired: log in")
      (codes "JWT expired: log in") (codes "JWT expired: log in") [] (codes ": log in") expired_body
      refl refl refl refl (ground arith) (omega arith)

abbrev two_errors : ProtocolError
two_errors = record {
  category = auth;
  category_desc = codes "login";
  errors = record { code = pos 3; desc = [] } ∷ record { code = pos 4; desc = [] } ∷ [];
}
