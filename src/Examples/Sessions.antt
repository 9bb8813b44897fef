-- ===== src/Examples/Sessions.antt =====
-- Runs of the test session of src/amvp.c: a configuration, the waiting, and two vector sets.
use libamvp.Common.{
  ℕ, ◌+◌, ◌-◌, ◌≤◌, ◌≡◌, refl, true, false, none, some, List, [], ◌∷◌, arith, ◌==◌, if◌then◌else◌,
  replicate, codes, ℤ, pos,
}
use mathlib.Core.List.{reverse}
use libamvp.Result.{success, invalid_arg}
use libamvp.SafeC.Errno.{CStr, Buf}
use libamvp.Session.Context.{Ctx, heap, dangling, empty_ctx}
use libamvp.Session.Setters.{set_json_filename}
use libamvp.Session.Calls.{Call, json_filename, request_only, sample, certkey, configure}
use libamvp.Session.Strings.{IsValid}
use libamvp.Session.Validity.{configure-IsValid, set_json_filename_dangles}
use libamvp.Session.Retry.{retry_handler}
use libamvp.Session.VectorSets.{
  Client, Action, fetched, submitted, slept, processed, send_responses, go_on, tests_loop,
  process_vsid, process_tests,
}
use libamvp.Session.Progress.{Ends, process_tests-Ends}
use libamvp.Session.Waits.{total_slept, process_vsid_slept}
use libamvp.Session.Submissions.{submissions, process_tests-submissions}

abbrev saved_name : Buf
saved_name = b'a' ∷ 0 ∷ []

abbrev saving_ctx : Ctx
saving_ctx = record empty_ctx { vector_req = true; json_filename = heap saved_name }

empty_ctx-IsValid : IsValid empty_ctx
empty_ctx-IsValid = record {
  server_name = tt;
  path_segment = tt;
  api_context = tt;
  cacerts_file = tt;
  tls_cert = tt;
  tls_key = tt;
  http_user_agent = tt;
  json_filename = tt;
  vector_req_file = tt;
  get_string = tt;
  post_filename = tt;
  put_filename = tt;
  delete_string = tt;
  save_filename = tt;
  mod_cert_req_file = tt;
  post_resources_filename = tt;
}

abbrev calls : List Call
calls =
    request_only (some (codes "req.json")) true
    ∷ json_filename (some (codes "a.json")) true
    ∷ json_filename (some (codes "b.json")) true
    ∷ certkey (some (codes "cert")) (some (codes "key")) true false
    ∷ sample
    ∷ []

configure-IsValid_example : (c : Ctx) × (configure empty_ctx calls ≡ some c) × IsValid c
configure-IsValid_example = configure-IsValid empty_ctx calls empty_ctx-IsValid (ground arith)

set_json_filename_dangles_example :
    (set_json_filename saving_ctx (some (replicate 129 b'x')) true
      ≡ some (invalid_arg, record saving_ctx { json_filename = dangling }))
    × (set_json_filename (record saving_ctx { json_filename = dangling }) (some (codes "b")) true
        ≡ none)
set_json_filename_dangles_example =
    set_json_filename_dangles saving_ctx saved_name (replicate 129 b'x') (codes "b") true true refl
      refl (omega arith)

-- A server that asks for a retry while a number of fetches is left.
abbrev test_client : Client ℕ ℤ
test_client = record {
  retrieve = λ url w. (success, w - 1);
  parse = λ w. some (if w == 0 then pos 0 else pos 30);
  retry_of = λ j. j;
  vector_req = λ w. false;
  write_header = λ w. (success, w);
  append_set = λ j w. (success, w);
  close_file = λ w. (success, w);
  process_set = λ j w. (success, w);
  submit = λ url w. (success, w);
}

abbrev two_urls : List CStr
two_urls = codes "/vs/1" ∷ codes "/vs/2" ∷ []

abbrev two_urls_done : List Action
two_urls_done =
    submitted (codes "/vs/2")
    ∷ processed
    ∷ fetched (codes "/vs/2")
    ∷ submitted (codes "/vs/1")
    ∷ processed
    ∷ fetched (codes "/vs/1")
    ∷ slept 30
    ∷ fetched (codes "/vs/1")
    ∷ []

two_urls_run : process_tests test_client two_urls 2 ≡ some (success, 0, two_urls_done)
unfolding process_tests tests_loop process_vsid retry_handler send_responses go_on
two_urls_run = refl

process_tests-submissions_example : submissions two_urls_done ≡ reverse two_urls
process_tests-submissions_example =
    process_tests-submissions test_client (λ w. refl) two_urls 2 0 two_urls_done two_urls_run

abbrev one_done : List Action
one_done =
    submitted (codes "/vs/1")
    ∷ processed
    ∷ fetched (codes "/vs/1")
    ∷ slept 30
    ∷ fetched (codes "/vs/1")
    ∷ []

one_run : process_vsid test_client (codes "/vs/1") 0 2 [] ≡ some (success, 0, one_done)
unfolding process_vsid retry_handler send_responses
one_run = refl

process_vsid_slept_example : total_slept one_done ≤ total_slept [] + 7499
process_vsid_slept_example =
    process_vsid_slept test_client (codes "/vs/1") 0 2 [] (success, 0, one_done) one_run

process_tests-Ends_example : Ends (process_tests test_client two_urls 2)
process_tests-Ends_example = process_tests-Ends test_client two_urls 2
