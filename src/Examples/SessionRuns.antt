-- ===== src/Examples/SessionRuns.antt =====
-- Runs of the algorithm table, the login, the registration and whole sessions of src/amvp.c.
use libamvp.Common.{
  ℕ, ◌≡◌, refl, Bool, true, false, Option, none, some, [], arith, codes, get_elem?, not, ◌==◌,
}
use libamvp.Result.{success, is_success}
use libamvp.Alg.Cipher.{cipher_value, rsa_siggen, aes_xpn}
use libamvp.Alg.Sub.{rsa, sub_rsa_siggen, aes, sub_aes_xpn}
use libamvp.Alg.SubValue.{sub_value}
use libamvp.Alg.Entry.{
  AlgHandler, plain, moded, rsa_siggen_kat_handler, aes_kat_handler, rev_fips186_4, rev_default,
}
use libamvp.Alg.Table.{alg_tbl}
use libamvp.Alg.Entries.{FoundAs, table_is_aligned}
use libamvp.Alg.RoundTrip.{index_by_name, index_by_name-returns, sub_values_agree, is_misplaced}
use libamvp.Alg.Dispatch.{dispatch_vector_set, process_vector_set}
use libamvp.Alg.Dispatching.{Dispatched, dispatch_vector_set_decides}
use libamvp.SafeC.Compare.{strnlen, strcmp}
use libamvp.SafeC.Copy.{strcpy_s}
use libamvp.Protocol.Errors.{is_protocol_error_message, is_error_array, has_version, root_array}
use libamvp.Transport.Network.{inspect_http_code}
use libamvp.Env.Pages.{get_obj_from_rsp}
use libamvp.Session.VectorSets.{tests_loop, process_vsid}
use libamvp.Flow.Requests.{send_with_path_seg}
use libamvp.Session.Progress.{Ends}
use libamvp.Flow.State.{Session}
use libamvp.Flow.Login.{string_of, perform, login, login_action, network_action}
use libamvp.Flow.Tokens.{LoggedIn, login_decides_token}
use libamvp.Flow.Register.{register}
use libamvp.Flow.Registered.{Registered}
use libamvp.Flow.Registering.{register_decides}
use libamvp.Flow.Polling.{Outcome, faulted, ended, get_result_test_session}
use libamvp.Flow.Passing.{get_result_test_session-Ends}
use libamvp.Flow.Approval.{Sound, session_passes_soundly}
use libamvp.Flow.Run.{run, vector_set}
use libamvp.Flow.Completed.{Completed, run_completes}
use libamvp.Examples.TestSession.{
  session_json, test_peer, new_session, test_registry, test_services, test_config,
}

abbrev siggen : AlgHandler
siggen =
    moded rsa_siggen rsa_siggen_kat_handler (codes "RSA") (codes "sigGen") rev_fips186_4
      (rsa sub_rsa_siggen)

abbrev xpn : AlgHandler
xpn = plain aes_xpn aes_kat_handler (codes "AMVP-AES-XPN") rev_default (aes sub_aes_xpn)

siggen_at : get_elem? alg_tbl 68 ≡ some siggen
unfolding alg_tbl
siggen_at = refl

xpn_at : get_elem? alg_tbl 17 ≡ some xpn
unfolding alg_tbl
xpn_at = refl

table_is_aligned_example : (e : AlgHandler) × (get_elem? alg_tbl 68 ≡ some e) × FoundAs 69 e
unfolding cipher_value
table_is_aligned_example = table_is_aligned 69 (omega arith) (omega arith)

index_by_name-returns_example :
    index_by_name (codes "RSA") (some (codes "sigGen")) ≡ cipher_value rsa_siggen
index_by_name-returns_example = index_by_name-returns 68 siggen siggen_at

sub_values_agree_example :
    (sub_value (aes sub_aes_xpn) == cipher_value aes_xpn) ≡ not (is_misplaced aes_xpn)
sub_values_agree_example = sub_values_agree 17 xpn xpn_at

dispatch_vector_set_decides_example :
    Dispatched
      (vector_set session_json test_peer test_registry test_services test_config)
      (some 1)
      new_session
      (some (codes "AMVP-AES-GCM"))
      (dispatch_vector_set
        (vector_set session_json test_peer test_registry test_services test_config)
        (some 1)
        new_session)
unfolding string_of
dispatch_vector_set_decides_example =
    dispatch_vector_set_decides
      (vector_set session_json test_peer test_registry test_services test_config) (some 1)
      new_session

login_decides_token_example :
    LoggedIn test_peer session_json new_session
      (login test_peer session_json (login_action test_peer session_json) false new_session)
login_decides_token_example = login_decides_token test_peer session_json false new_session

register_decides_example : Registered session_json [] (
    register session_json test_peer test_registry
      (network_action test_peer session_json)
      new_session)
register_decides_example = register_decides session_json test_peer test_registry new_session

get_result_test_session-Ends_example : Ends (
    get_result_test_session session_json test_peer
      (network_action test_peer session_json)
      false
      (some (codes "/s/1"))
      new_session)
get_result_test_session-Ends_example =
    get_result_test_session-Ends session_json test_peer (network_action test_peer session_json)
      false (some (codes "/s/1")) new_session

session_passes_soundly_example :
    Sound session_json test_peer false (some (codes "/s/1")) new_session (
      get_result_test_session session_json test_peer
        (network_action test_peer session_json)
        false
        (some (codes "/s/1"))
        new_session)
session_passes_soundly_example =
    session_passes_soundly session_json test_peer false (some (codes "/s/1")) new_session

abbrev session_after : Option (Outcome ℕ) → Session ℕ
session_after none = new_session
session_after (some faulted) = new_session
session_after (some (ended rv s)) = s

abbrev last_session : Session ℕ
last_session =
    session_after
      (run session_json test_peer test_registry test_services test_config false new_session)

abbrev is_completed : Option (Outcome ℕ) → Bool
is_completed none = false
is_completed (some faulted) = false
is_completed (some (ended rv s)) = is_success rv

completed :
    (o : Option (Outcome ℕ)) → is_completed o ≡ true → o ≡ some (ended success (session_after o))
completed none h = ground (arith, h)
completed (some faulted) h = ground (arith, h)
completed (some (ended rv s)) h = ground (arith, h)

run_ends_well :
    is_completed
      (run session_json test_peer test_registry test_services test_config false new_session)
    ≡ true
unfolding run send_with_path_seg network_action inspect_http_code perform get_obj_from_rsp strnlen
    cipher_value tests_loop process_vsid process_vector_set alg_tbl strcmp strcpy_s
    is_protocol_error_message is_error_array has_version root_array
run_ends_well = refl

run_succeeds :
    run session_json test_peer test_registry test_services test_config false new_session
    ≡ some (ended success last_session)
run_succeeds =
    completed (run session_json test_peer test_registry test_services test_config false new_session)
      run_ends_well

run_completes_example :
    Completed session_json test_peer test_registry test_services test_config false new_session
run_completes_example =
    run_completes session_json test_peer test_registry test_services test_config refl refl refl refl
      refl refl false new_session last_session run_succeeds
