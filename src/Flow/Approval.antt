-- ===== src/Flow/Approval.antt =====
-- A session passes only by an answer of the server that says so.
use libamvp.Common.{
  ℕ, zero, suc, ◌-◌, ◌≤◌, ◌≡◌, refl, ap, ◌∙◌, ◌⊎◌, inl, inr, Bool, true, Option, none, some, ℤ, pos,
  if-split, if-both, leb, leb→le, codes, ◌++◌,
}
use libamvp.Result.{Result, success, is_success, is_success-eq}
use libamvp.SafeC.Errno.{CStr}
use libamvp.Protocol.Json.{Json}
use libamvp.Env.Pages.{attr_url_max}
use libamvp.Session.Retry.{Waited, retry_handler}
use libamvp.Session.VectorSets.{is_retry}
use libamvp.Flow.State.{Session, Peer, http_get}
use libamvp.Flow.Requests.{Action, retrieve_vector_set_result, printed, server_url}
use libamvp.Flow.Login.{network_action}
use libamvp.Flow.Register.{array_of}
use libamvp.Flow.Frame.{Frames, network_action-fixed}
use libamvp.Flow.Answers.{Answered}
use libamvp.Flow.Asking.{retrieve_vector_set_result-Answered}
use libamvp.Flow.Rounds.{
  Approves, Rounds, here, again, Approved, retrieve-fixed, report_loop-fixed, scan_results-settled,
}
use libamvp.Flow.Results.{Verdict, leave, fault, Scan, object_of}
use libamvp.Flow.Polling.{
  Outcome, faulted, ended, Again, first_scan, after_wait, after_scan, after_object, after_answer,
  results_loop, get_result_test_session, conclude, count_of, scan_results, retry_time, is_true,
}

module _ {Value Array Object : Type 0} (json : Json Value Array Object) {R : Type 0} (peer : Peer R)
    (action : Action R) (f : Frames peer json action) (verbose : Bool) where
  -- The flag is the one before, or the result is AMVP_SUCCESS and retrieved results approve.
  abbrev Founded : Option CStr → Scan R → Option (Outcome R) → Type 0
  Founded url start none = Unit
  Founded url start (some faulted) = Unit
  Founded url start (some (ended rv s)) =
      (s.session_passed ≡ start.session.session_passed)
      ⊎ ((rv ≡ success) × Approved json peer action f verbose url start)

  module _ (url : Option CStr) (start : Scan R) where
    -- The flag is still the one before.
    abbrev Unchanged : Scan R → Type 0
    Unchanged scan = scan.session.session_passed ≡ start.session.session_passed

    -- The call of the loop that follows a wait.
    abbrev FoundedAgain : Again R → Type 0
    FoundedAgain more =
        (interval : ℤ) (waited : ℕ) (scan : Scan R)
        → Rounds json peer action f verbose url start scan
        → Unchanged scan
        → Founded url start (more interval waited scan)

    after_wait-Founded :
        (w : Waited) (scan : Scan R) (more : Again R)
        → Rounds json peer action f verbose url start scan
        → Unchanged scan
        → FoundedAgain more
        → Founded url start (after_wait w scan more)
    unfolding after_wait
    after_wait-Founded w scan more rounds e h =
        if-both (Founded url start) (is_retry w.result)
          (h w.retry_period w.waited_so_far scan rounds e) (inl e)

    conclude-Founded :
        (obj : Object) (scan : Scan R)
        → Unchanged scan
        → (is_true (json.get_boolean obj (codes "passed")) ≡ true
            → Approved json peer action f verbose url start)
        → Founded url start (
            some (
              conclude json peer action verbose obj
                (count_of json peer action verbose (array_of json (some obj) (codes "results")))
                (array_of json (some obj) (codes "results"))
                scan))
    unfolding conclude
    conclude-Founded obj scan e approved =
        let results = array_of json (some obj) (codes "results") in
        let count = count_of json peer action verbose results in
        if-split (λ o. Founded url start (some o)) (is_true (json.get_boolean obj (codes "passed")))
          (λ yes_passed. inr (refl, approved yes_passed))
          (λ h. inl (
            ap (λ t. t.6)
              (report_loop-fixed json peer action f verbose count 0 results scan.rv scan.session)
            ∙ e))

    after_scan-Founded :
        (obj : Object) (interval : ℤ) (waited : ℕ) (r : Verdict × ℕ × Scan R) (more : Again R)
        → Rounds json peer action f verbose url start r.2
        → Unchanged r.2
        → (count_of json peer action verbose (array_of json (some obj) (codes "results")) ≤ r.1
            → is_true (json.get_boolean obj (codes "passed")) ≡ true
            → Approved json peer action f verbose url start)
        → FoundedAgain more
        → Founded url start (
            after_scan json peer action verbose obj
              (count_of json peer action verbose (array_of json (some obj) (codes "results")))
              (array_of json (some obj) (codes "results"))
              interval
              waited
              r
              more)
    unfolding after_scan
    after_scan-Founded obj interval waited (leave, c, scan) more rounds e all h = inl e
    after_scan-Founded obj interval waited (fault, c, scan) more rounds e all h = tt
    after_scan-Founded obj interval waited (_, c, scan) more rounds e all h =
        let count =
          count_of json peer action verbose (array_of json (some obj) (codes "results")) in
        if-split (Founded url start) (leb count c)
          (λ b. conclude-Founded obj scan e (all (leb→le count c b)))
          (λ b. after_wait-Founded (retry_handler interval waited (pos 1)) scan more rounds e h)

    after_object-Founded :
        (o : Option Object) (interval : ℤ) (waited : ℕ) (scan : Scan R) (rv : Result)
        (t : Session R) (more : Again R)
        → Rounds json peer action f verbose url start scan
        → retrieve_vector_set_result peer action url scan.session ≡ (rv, t)
        → is_success rv ≡ true
        → object_of json (json.parse_string t.curl_buf) ≡ o
        → t.session_passed ≡ start.session.session_passed
        → FoundedAgain more
        → Founded url start (
            after_object json peer action verbose o interval waited
              (record scan { rv = rv; session = t })
              more)
    unfolding after_object
    after_object-Founded none interval waited scan rv t more rounds got ok p e h = inl e
    after_object-Founded (some obj) interval waited scan rv t more rounds got ok p e h =
        let results = array_of json (some obj) (codes "results") in
        let heard = record scan { rv = rv; session = t } in
        let (kept, all) = scan_results-settled json peer action f verbose results heard in
        after_scan-Founded obj interval waited (scan_results json peer action verbose results heard)
          more (again rounds (rv, t, obj, got, ok, p, refl)) (ap (λ u. u.6) kept ∙ e)
          (λ most yes_passed. (
            scan,
            t,
            rounds,
            got ∙ ap (λ c. (c, t)) (is_success-eq rv ok),
            (obj, p, yes_passed, all most),
          ))
          h

    after_answer-Founded :
        (interval : ℤ) (waited : ℕ) (scan : Scan R) (r : Result × Session R) (more : Again R)
        → Rounds json peer action f verbose url start scan
        → retrieve_vector_set_result peer action url scan.session ≡ r
        → r.1.session_passed ≡ start.session.session_passed
        → FoundedAgain more
        → Founded url start (after_answer json peer action verbose interval waited scan r more)
    unfolding after_answer
    after_answer-Founded interval waited scan (rv, t) more rounds got e h =
        if-split (Founded url start) (is_success rv)
          (λ ok.
            after_object-Founded (object_of json (json.parse_string t.curl_buf)) interval waited
              scan rv t more rounds got ok refl e h)
          (λ failed. inl e)

    pub results_loop-Founded :
        (fuel : ℕ) → FoundedAgain (results_loop json peer action verbose fuel url)
    unfolding results_loop
    results_loop-Founded zero interval waited scan rounds e = tt
    results_loop-Founded (suc fuel) interval waited scan rounds e =
        after_answer-Founded interval waited scan
          (retrieve_vector_set_result peer action url scan.session)
          (results_loop json peer action verbose fuel url) rounds refl
          (ap (λ t. t.6) (retrieve-fixed json peer action f verbose url scan.session) ∙ e)
          (results_loop-Founded fuel)

module _ {Value Array Object : Type 0} (json : Json Value Array Object) {R : Type 0} (peer : Peer R)
    (verbose : Bool) where
  -- The results that were retrieved after some rounds from `s` by the last request, which the
  -- server has answered with the code 200, approve.
  abbrev pub Approving : Option CStr → Session R → Type 0
  Approving url s =
      (scan : Scan R) × (t : Session R) × (base : CStr) × Rounds json peer
        (network_action peer json) (network_action-fixed peer json) verbose url (first_scan s) scan
      × (retrieve_vector_set_result peer (network_action peer json) url scan.session ≡ (success, t))
      × (url ≡ some base)
      × Answered peer http_get
          (printed (attr_url_max - 1) (server_url peer scan.session (base ++ codes "/results")))
          none (pos 0) scan.session t
      × Approves json peer (network_action peer json) (network_action-fixed peer json) verbose
          t.curl_buf

  abbrev pub Sound : Option CStr → Session R → Option (Outcome R) → Type 0
  Sound url s none = Unit
  Sound url s (some faulted) = Unit
  Sound url s (some (ended rv s')) =
      (s'.session_passed ≡ s.session_passed) ⊎ ((rv ≡ success) × Approving url s)

  Founded-Sound :
      (url : Option CStr) (s : Session R) (o : Option (Outcome R))
      → Founded json peer
          (network_action peer json)
          (network_action-fixed peer json)
          verbose
          url
          (first_scan s)
          o
      → Sound url s o
  Founded-Sound url s none h = tt
  Founded-Sound url s (some faulted) h = tt
  Founded-Sound url s (some (ended rv s')) (inl same) = inl same
  Founded-Sound url s (some (ended rv s')) (inr (ok, approved)) =
      let (scan, t, rounds, got, approves) = approved in
      let (base, at, answered) =
        retrieve_vector_set_result-Answered peer json url scan.session t got in
      inr (ok, (scan, t, base, rounds, got, at, answered, approves))

  -- Whatever the server answers: where amvp_get_result_test_session returns, the flag
  -- `session_passed` is the one before, or the result is AMVP_SUCCESS and after some rounds of the
  -- loop a GET of `/results` of the session was sent, which the server has answered with the code
  -- 200 and a body that has "passed" as true, with a status for each of its vector sets that is
  -- none of "expired", "unreceived" and "incomplete".
  pub session_passes_soundly :
      (url : Option CStr) (s : Session R)
      → Sound url s (get_result_test_session json peer (network_action peer json) verbose url s)
  unfolding get_result_test_session
  session_passes_soundly url s = Founded-Sound url s _ (
      results_loop-Founded json peer (network_action peer json) (network_action-fixed peer json)
        verbose url (first_scan s) 1201 retry_time 0 (first_scan s) here refl)
