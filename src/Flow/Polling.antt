-- ===== src/Flow/Polling.antt =====
-- amvp_get_result_test_session and amvp_check_test_results of src/amvp.c: the loop over the answers
-- of the server, on fuel, and the report on the vector sets of a session that did not pass.
use libamvp.Common.{
  ℕ, zero, suc, ◌+◌, Bool, true, false, ◌&&◌, ◌||◌, Option, none, some, [], leb, if◌then◌else◌, ℤ,
  pos, codes,
}
use libamvp.Result.{Result, success, json_err, transport_fail, is_success}
use libamvp.SafeC.Errno.{CStr}
use libamvp.Protocol.Json.{Json}
use libamvp.Session.Retry.{Waited, retry_handler}
use libamvp.Session.VectorSets.{is_retry}
use libamvp.Flow.State.{Session, Peer}
use libamvp.Flow.Requests.{Action, retrieve_vector_set_result}
use libamvp.Flow.Login.{string_of}
use libamvp.Flow.Register.{array_of}
use libamvp.Flow.Results.{Verdict, leave, counted, fault, Scan, is_status, object_of, scan_loop}

abbrev pub retry_time : ℤ
retry_time = pos 30

-- The function returns, or it reads memory that was freed.
pub data Outcome (R : Type 0) : Type 0 where
  faulted : Outcome R
  ended : Result → Session R → Outcome R

-- The lists live on from one answer to the next.
abbrev pub first_scan : {R : Type 0} → Session R → Scan R
first_scan s = record {
  rv = success;
  session = s;
  failed_vs = [];
  failed_algs = [];
  failed_modes = [];
  stale = false;
}

abbrev pub Again : Type 0 → Type 0
Again R = ℤ → ℕ → Scan R → Option (Outcome R)

abbrev pub is_true : Option Bool → Bool
is_true (some true) = true
is_true (some false) = false
is_true none = false

unfoldable pub after_wait : {R : Type 0} → Waited → Scan R → Again R → Option (Outcome R)
after_wait w scan again =
    let more = again w.retry_period w.waited_so_far scan in
    if is_retry w.result then more else some (ended transport_fail scan.session)

module _ {Value Array Object : Type 0} (json : Json Value Array Object) {R : Type 0} (peer : Peer R)
    (action : Action R) (verbose : Bool) where
  unfoldable pub object_at : Option Array → ℕ → Option Object
  object_at none i = none
  object_at (some arr) i = json.get_object arr i

  -- The details of a vector set with "fail" or "error" are printed with verbose logs only.
  unfoldable pub report_status :
      Option CStr
      → Option CStr
      → Result
      → Session R
      → (Result → Session R → Result × Session R)
      → Result × Session R
  unfolding is_status
  report_status none vs_url rv s more = (rv, s)
  report_status (some status) vs_url rv s more =
      let failing = is_status (codes "fail") 4 status || is_status (codes "error") 5 status in
      let (rv', s') = retrieve_vector_set_result peer action vs_url s in
      let printed = if is_success rv' then more rv' s' else (rv', s') in
      if failing && verbose then printed else more rv s

  unfoldable pub report_loop : ℕ → ℕ → Option Array → Result → Session R → Result × Session R
  unfolding report_status object_at
  report_loop zero i arr rv s = (rv, s)
  report_loop (suc n) i arr rv s =
      let current = object_at arr i in
      report_status (string_of json current (codes "status"))
        (string_of json current (codes "vectorSetUrl")) rv s (report_loop n (i + 1) arr)

  abbrev pub end_with : Result × Session R → Outcome R
  end_with (rv, s) = ended rv s

  -- All vector sets are complete.
  unfoldable pub conclude : Object → ℕ → Option Array → Scan R → Outcome R
  unfolding report_loop
  conclude obj count results scan =
      if is_true (json.get_boolean obj (codes "passed"))
      then ended success (record scan.session { session_passed = true })
      else end_with (report_loop count 0 results scan.rv scan.session)

  unfoldable pub after_scan :
      Object → ℕ → Option Array → ℤ → ℕ → Verdict × ℕ × Scan R → Again R → Option (Outcome R)
  unfolding conclude after_wait
  after_scan obj count results interval waited (leave, completed, scan) again =
      some (ended scan.rv scan.session)
  after_scan obj count results interval waited (fault, completed, scan) again = some faulted
  after_scan obj count results interval waited (v, completed, scan) again =
      if leb count completed
      then some (conclude obj count results scan)
      else after_wait (retry_handler interval waited (pos 1)) scan again

  unfoldable pub count_of : Option Array → ℕ
  count_of none = 0
  count_of (some arr) = json.get_count arr

  unfoldable pub scan_results : Option Array → Scan R → Verdict × ℕ × Scan R
  unfolding scan_loop
  scan_results none scan = (counted, 0, scan)
  scan_results (some arr) scan = scan_loop json peer action (json.get_count arr) 0 arr 0 scan

  unfoldable pub after_object : Option Object → ℤ → ℕ → Scan R → Again R → Option (Outcome R)
  unfolding after_scan count_of scan_results array_of
  after_object none interval waited scan again = some (ended json_err scan.session)
  after_object (some obj) interval waited scan again =
      let results = array_of json (some obj) (codes "results") in
      after_scan obj (count_of results) results interval waited (scan_results results scan) again

  unfoldable pub after_answer : ℤ → ℕ → Scan R → Result × Session R → Again R → Option (Outcome R)
  unfolding after_object object_of
  after_answer interval waited scan (rv, s) again =
      let parsed =
        after_object (object_of json (json.parse_string s.curl_buf)) interval waited
          (record scan { rv = rv; session = s }) again in
      if is_success rv then parsed else some (ended rv s)

  unfoldable pub results_loop : ℕ → Option CStr → Again R
  unfolding after_answer
  results_loop zero url interval waited scan = none
  results_loop (suc fuel) url interval waited scan =
      after_answer interval waited scan (retrieve_vector_set_result peer action url scan.session)
        (results_loop fuel url)

  unfoldable pub get_result_test_session : Option CStr → Session R → Option (Outcome R)
  unfolding results_loop
  get_result_test_session url s = results_loop 1201 url retry_time 0 (first_scan s)

  unfoldable pub check_test_results : Session R → Option (Outcome R)
  unfolding get_result_test_session
  check_test_results s = get_result_test_session s.session_url s
