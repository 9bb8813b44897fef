-- ===== src/Flow/Passing.antt =====
-- The polling for the results of a session ends, and a session passes only with an answer that
-- says so.
use libamvp.Common.{
  ℕ, zero, suc, ◌+◌, ◌*◌, ◌≤◌, ◌<◌, refl, inl, inr, Bool, Option, none, some, ℤ, pos, arith,
  if-both, leb, codes, Bool-cases,
}
use libamvp.Result.{Result, transport_fail, is_success}
use libamvp.SafeC.Errno.{CStr}
use libamvp.Protocol.Json.{Json}
use libamvp.Session.Retry.{retry_handler, max_wait_time}
use libamvp.Session.Waiting.{retry_handler_stops, retry_handler_waits}
use libamvp.Session.Progress.{Ends}
use libamvp.Flow.State.{Session, Peer}
use libamvp.Flow.Requests.{Action, retrieve_vector_set_result}
use libamvp.Flow.Register.{array_of}
use libamvp.Flow.Results.{Verdict, leave, fault, Scan, object_of}
use libamvp.Flow.Polling.{
  ended, Again, first_scan, after_wait, after_scan, after_object, after_answer, results_loop,
  get_result_test_session, count_of, scan_results, retry_time,
}

-- What a recursive call needs: it ends once the recorded time has grown by 6 seconds.
abbrev EndsAfter : {R : Type 0} → ℕ → Again R → Type 0
EndsAfter {R = R} waited again =
    waited < max_wait_time
    → (interval : ℤ) (t : ℕ) (scan : Scan R) → waited + 6 ≤ t
    → Ends (again interval t scan)

after_wait-Ends :
    {R : Type 0} (period : ℤ) (waited : ℕ) (scan : Scan R) (again : Again R)
    → EndsAfter waited again
    → Ends (after_wait (retry_handler period waited (pos 1)) scan again)
unfolding after_wait
after_wait-Ends period waited scan again h = elim (Bool-cases (leb max_wait_time waited)) [
  | inl stop ↦
      rw (retry_handler_stops period (pos 1) waited (ground arith))
        (ended transport_fail scan.session, refl)
  | inr go ↦
      let (p, s, low, high, res, grows, cap) =
        retry_handler_waits period (pos 1) waited (ground arith) in
      let w = retry_handler period waited (pos 1) in
      rw res (h (ground arith) w.retry_period w.waited_so_far scan (omega arith))
]

module _ {Value Array Object : Type 0} (json : Json Value Array Object) {R : Type 0} (peer : Peer R)
    (action : Action R) (verbose : Bool) where
  complete-Ends :
      (obj : Object) (count : ℕ) (results : Option Array) (interval : ℤ) (waited : ℕ) (v : Verdict)
      (completed : ℕ) (scan : Scan R) (again : Again R)
      → EndsAfter waited again
      → Ends (
          after_scan json peer action verbose obj count results interval waited
            (v, completed, scan)
            again)
  unfolding after_scan
  complete-Ends obj count results interval waited leave completed scan again h = (_, refl)
  complete-Ends obj count results interval waited fault completed scan again h = (_, refl)
  complete-Ends obj count results interval waited _ completed scan again h =
      if-both Ends (leb count completed) (_, refl) (after_wait-Ends interval waited scan again h)

  after_object-Ends :
      (o : Option Object) (interval : ℤ) (waited : ℕ) (scan : Scan R) (again : Again R)
      → EndsAfter waited again
      → Ends (after_object json peer action verbose o interval waited scan again)
  unfolding after_object
  after_object-Ends none interval waited scan again h = (_, refl)
  after_object-Ends (some obj) interval waited scan again h =
      let results = array_of json (some obj) (codes "results") in
      let (v, completed, scan') = scan_results json peer action verbose results scan in
      complete-Ends obj (count_of json peer action verbose results) results interval waited v
        completed scan' again h

  after_answer-Ends :
      (interval : ℤ) (waited : ℕ) (scan : Scan R) (r : Result × Session R) (again : Again R)
      → EndsAfter waited again
      → Ends (after_answer json peer action verbose interval waited scan r again)
  unfolding after_answer
  after_answer-Ends interval waited scan (rv, s) again h =
      if-both Ends (is_success rv)
        (after_object-Ends (object_of json (json.parse_string s.curl_buf)) interval waited
          (record scan { rv = rv; session = s }) again h)
        (_, refl)

  -- Fuel for the time that is left, at 6 seconds a round.
  results_loop-Ends :
      (fuel : ℕ) (url : Option CStr) (interval : ℤ) (waited : ℕ) (scan : Scan R)
      → max_wait_time ≤ waited + 6 * fuel
      → Ends (results_loop json peer action verbose (suc fuel) url interval waited scan)
  unfolding results_loop
  results_loop-Ends zero url interval waited scan h =
      after_answer-Ends interval waited scan
        (retrieve_vector_set_result peer action url scan.session)
        (results_loop json peer action verbose zero url) (λ lt. absurd (omega arith))
  results_loop-Ends (suc fuel) url interval waited scan h =
      after_answer-Ends interval waited scan
        (retrieve_vector_set_result peer action url scan.session)
        (results_loop json peer action verbose (suc fuel) url)
        (λ lt i t scan' le. results_loop-Ends fuel url i t scan' (omega arith))

  -- Whatever the server answers, amvp_get_result_test_session returns, or reads freed memory,
  -- within 1201 requests for the results of the session.
  pub get_result_test_session-Ends :
      (url : Option CStr) (s : Session R)
      → Ends (get_result_test_session json peer action verbose url s)
  unfolding get_result_test_session
  get_result_test_session-Ends url s =
      results_loop-Ends 1200 url retry_time 0 (first_scan s) (omega arith)
