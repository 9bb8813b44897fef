-- ===== src/Flow/Run.antt =====
-- amvp_run of src/amvp.c. Its stages are those of the other modules; what they call outside is an
-- interface: the algorithm handlers, the files, the metadata and the requests from files.
use libamvp.Common.{Bool, true, false, Option, none, some, [], if◌then◌else◌, ℤ, pos, codes}
use libamvp.Result.{Result, success, unsupported_op, is_success}
use libamvp.SafeC.Errno.{CStr}
use libamvp.Protocol.Json.{Json}
use libamvp.Env.Pages.{get_obj_from_rsp}
use libamvp.Session.VectorSets.{Client, process_tests}
use libamvp.Alg.Entry.{Handler}
use libamvp.Alg.Dispatch.{VectorSet, process_vector_set}
use libamvp.Flow.State.{Session, Peer}
use libamvp.Flow.Requests.{
  Action, retrieve_vector_set, submit_vector_responses, transport_get, transport_delete,
}
use libamvp.Flow.Login.{login, string_of, network_action}
use libamvp.Flow.Register.{Registry, register}
use libamvp.Flow.Polling.{Outcome, faulted, ended, check_test_results}
use libamvp.Flow.Ending.{Files, validate_test_session, cert_req}

-- The settings of the context, and whether AMVP_NO_LOGIN is in the environment.
pub record Config : Type 0 where
  pub no_login : Bool
  pub verbose : Bool
  pub get : Bool
  pub get_string : Option CStr
  pub save_filename : Option CStr
  pub post : Bool
  pub post_filename : Option CStr
  pub post_resources : Bool
  pub post_resources_filename : Option CStr
  pub mod_cert_req : Bool
  pub delete : Bool
  pub delete_string : Option CStr
  pub vector_req : Bool
  pub put : Bool

-- The functions that the run calls and that are not modelled, over the outside state or, where
-- they send requests or change the context, over the session.
pub record Services (R Value Object : Type 0) : Type 0 where
  pub post_data : Option CStr → Session R → Result × Session R
  pub post_resources_from : Option CStr → Session R → Result × Session R
  pub mod_cert_req_run : Session R → Result × Session R
  pub put_data_from_ctx : Session R → Result × Session R
  pub verify_metadata : R → Result × R  -- amvp_verify_fips_validation_metadata
  pub set_validation : Bool → R → R  -- fips.do_validation
  pub build_validation : R → Result × (Option CStr × ℤ) × R
  -- amvp_write_session_info: the result, `session_file_path` after it, and the outside state
  pub write_session_info : Session R → Result × Option CStr × R
  pub handle : Handler → Option Object → R → Result × R
  pub write_header : Session R → Result × R  -- as in Session/VectorSets
  pub append_set : Value → R → Result × R
  pub close_file : R → Result × R
  pub files : Files R Value Object

-- The context changes outside only.
abbrev pub outside : {R : Type 0} → Session R → Result × R → Result × Session R
outside s (rv, r) = (rv, record s { remote = r })

abbrev pub ended_with : {R : Type 0} → Result × Session R → Outcome R
ended_with (rv, s) = ended rv s

module _ {Value Array Object : Type 0} (json : Json Value Array Object) {R : Type 0} (peer : Peer R)
    (registry : Registry R Value) (services : Services R Value Object) (config : Config) where
  abbrev pub action : Action R
  action = network_action peer json

  abbrev pub number_of : Option Object → CStr → ℤ
  number_of none name = pos 0
  number_of (some obj) name = json.get_number obj name

  -- What amvp_dispatch_vector_set reads and calls.
  abbrev pub vector_set : VectorSet (Session R) (Option Object)
  vector_set = record {
    algorithm = λ obj. string_of json obj (codes "algorithm");
    mode = λ obj. string_of json obj (codes "mode");
    vs_id = λ obj. number_of obj (codes "vsId");
    set_vs_id = λ id s. record s { vs_id = id };
    handle = λ h obj s. outside s (services.handle h obj s.remote);
  }

  -- What amvp_process_tests and amvp_process_vsid call.
  abbrev pub client : Client (Session R) Value
  client = record {
    retrieve = λ url. retrieve_vector_set peer action (some url);
    parse = λ s. json.parse_string s.curl_buf;
    retry_of = λ val. number_of (get_obj_from_rsp json val) (codes "retry");
    vector_req = λ s. config.vector_req;
    write_header = λ s. outside s (services.write_header s);
    append_set = λ val s. outside s (services.append_set val s.remote);
    close_file = λ s. outside s (services.close_file s.remote);
    process_set = λ val. process_vector_set vector_set (get_obj_from_rsp json val);
    submit = λ url. submit_vector_responses peer action (some url);
  }

  unfoldable pub close_saved : CStr → Result × Session R → Result × Session R
  close_saved name (rv, s) =
      let closed = outside s (services.files.append_file none name s.remote) in
      if is_success rv then closed else (rv, s)

  -- The answer is written to a file, where one is named and the answer is JSON; its result is then
  -- that of the writing.
  unfoldable pub save_answer : Option CStr → Option Value → Result × Session R → Result × Session R
  unfolding close_saved
  save_answer none val r = r
  save_answer (some name) none r = r
  save_answer (some name) (some val) (rv, s) =
      close_saved name (outside s (services.files.write_file val name s.remote))

  abbrev pub saved : Result × Session R → Result × Session R
  saved r = save_answer config.save_filename (json.parse_string r.1.curl_buf) r

  unfoldable pub get_ended : Option (Result × Session R) → Outcome R
  unfolding save_answer
  get_ended none = faulted
  get_ended (some r) = ended_with (saved r)

  unfoldable pub put_after : Result × Session R → Outcome R
  put_after (rv, s) =
      let done = ended_with (services.put_data_from_ctx s) in
      if config.put then done else ended rv s

  -- What follows the results.
  unfoldable pub after_results : Bool → Session R → Outcome R
  unfolding put_after cert_req validate_test_session
  after_results fips s =
      let (rv, s') =
        validate_test_session json services.files peer action services.build_validation s in
      let validated = if is_success rv then put_after (rv, s') else ended rv s' in
      if config.mod_cert_req
      then ended_with (cert_req json services.files peer action config.mod_cert_req s)
      else (if fips then validated else put_after (success, s))

  unfoldable pub then_results : Bool → Option (Outcome R) → Option (Outcome R)
  unfolding after_results
  then_results fips none = none
  then_results fips (some faulted) = some faulted
  then_results fips (some (ended rv s)) =
      let rest = after_results fips s in if is_success rv then some rest else some (ended rv s)

  -- The label `check`.
  unfoldable pub check : Bool → Session R → Option (Outcome R)
  unfolding then_results check_test_results
  check fips s =
      let results = then_results fips (check_test_results json peer action config.verbose s) in
      if config.vector_req then some (ended success s) else results

  unfoldable pub after_tests :
      {A : Type 0} → Bool → Option (Result × Session R × A) → Option (Outcome R)
  unfolding check
  after_tests fips none = none
  after_tests fips (some (rv, s, done)) =
      let rest = check fips s in if is_success rv then rest else some (ended rv s)

  -- A failed writing is only logged.
  abbrev pub with_info : Session R → Session R
  with_info s =
      let (rv, path, r) = services.write_session_info s in
      if config.put then s else record s { session_file_path = path; remote = r }

  unfoldable pub after_register : Bool → Result × Session R → Option (Outcome R)
  unfolding after_tests process_tests
  after_register fips (rv, s) =
      let rest =
        after_tests fips (process_tests client (with_info s).vsid_url_list (with_info s)) in
      if is_success rv then rest else some (ended rv s)

  abbrev pub with_validation : Bool → Session R → Session R
  with_validation on s = record s { remote = services.set_validation on s.remote }

  unfoldable pub after_verify : Result × Session R → Option (Outcome R)
  unfolding after_register register
  after_verify (rv, s) =
      let rest =
        after_register true (register json peer registry action (with_validation true s)) in
      if is_success rv then rest else some (ended unsupported_op s)

  -- The registration and what follows it.
  unfoldable pub run_session : Bool → Session R → Option (Outcome R)
  unfolding after_verify after_register register
  run_session false s =
      after_register false (register json peer registry action (with_validation false s))
  run_session true s = after_verify (outside s (services.verify_metadata s.remote))

  -- The mode of the run; the result of amvp_mod_cert_req is not tested.
  unfoldable pub run_mode : Bool → Session R → Option (Outcome R)
  unfolding run_session check get_ended transport_get
  run_mode fips s =
      let got = get_ended (transport_get peer action config.get_string [] s) in
      let modified = check fips (services.mod_cert_req_run s).1 in
      let deleted = saved (transport_delete peer action config.delete_string s) in
      let registered = run_session fips s in
      if config.get
      then some got
      else (if config.post
          then some (ended_with (services.post_data config.post_filename s))
          else (if config.post_resources
              then some (ended_with (services.post_resources_from config.post_resources_filename s))
              else (if config.mod_cert_req
                  then modified
                  else (if config.delete then some (ended_with deleted) else registered))))

  unfoldable pub after_login : Bool → Result × Session R → Option (Outcome R)
  unfolding run_mode
  after_login fips (rv, s) =
      let rest = run_mode fips s in if is_success rv then rest else some (ended rv s)

  -- amvp_run with a context.
  unfoldable pub run : Bool → Session R → Option (Outcome R)
  unfolding after_login login
  run fips s =
      if config.no_login
      then after_login fips (success, s)
      else after_login fips (login peer json action false s)
