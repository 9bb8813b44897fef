-- ===== src/Flow/Rounds.antt =====
-- The rounds of the loop of amvp_get_result_test_session, what they keep in the session, and the
-- answer by which a session passes.
use mathlib.Core.Path.{subst}
use libamvp.Common.{
  ℕ, zero, suc, ◌+◌, ◌-◌, ◌≤◌, ◌<◌, ◌≡◌, refl, ◌∙◌, Bool, true, Option, none, some, pos, arith,
  if-both, codes, ◌&&◌, ◌||◌,
}
use libamvp.Result.{Result, success, is_success}
use libamvp.SafeC.Errno.{CStr}
use libamvp.Protocol.Json.{Json}
use libamvp.Env.Pages.{attr_url_max}
use libamvp.Transport.Network.{get_vs_result}
use libamvp.Flow.State.{Session, Peer}
use libamvp.Flow.Requests.{Action, retrieve_vector_set_result}
use libamvp.Flow.Login.{string_of}
use libamvp.Flow.Register.{array_of}
use libamvp.Flow.Frame.{fixed, Frames, request-fixed}
use libamvp.Flow.Results.{Scan, object_of, is_status}
use libamvp.Flow.Scanning.{Settled, scan_loop-Looped}
use libamvp.Flow.Polling.{count_of, scan_results, is_true, object_at, report_status, report_loop}

module _ {Value Array Object : Type 0} (json : Json Value Array Object) {R : Type 0} (peer : Peer R)
    (action : Action R) (f : Frames peer json action) (verbose : Bool) where
  abbrev pub status_in : Option Array → ℕ → Option CStr
  status_in results k =
      string_of json (object_at json peer action verbose results k) (codes "status")

  -- A body has "passed" as true, and every vector set in it has a settled status.
  abbrev pub Approves : Option CStr → Type 0
  Approves body =
      (obj : Object) × (object_of json (json.parse_string body) ≡ some obj)
      × (is_true (json.get_boolean obj (codes "passed")) ≡ true)
      × ((k : ℕ)
          → k < count_of json peer action verbose (array_of json (some obj) (codes "results"))
          → Settled json peer action f (status_in (array_of json (some obj) (codes "results")) k))

  -- One round of the loop: the results are retrieved without an error, and their vector sets looked
  -- through.
  abbrev pub Round : Option CStr → Scan R → Scan R → Type 0
  Round url scan next =
      (rv : Result) × (t : Session R) × (obj : Object) × (retrieve_vector_set_result peer action url
          scan.session
        ≡ (rv, t))
      × (is_success rv ≡ true)
      × (object_of json (json.parse_string t.curl_buf) ≡ some obj)
      × (next
          ≡ (scan_results json peer action verbose (array_of json (some obj) (codes "results"))
              (record scan { rv = rv; session = t })).2)

  -- What the rounds of the loop lead to.
  pub data Rounds (url : Option CStr) (start : Scan R) : Scan R → Type 0 where
    here : Rounds url start start
    again :
        {scan next : Scan R} → Rounds url start scan → Round url scan next → Rounds url start next

  -- The results that are retrieved after some rounds approve.
  abbrev pub Approved : Option CStr → Scan R → Type 0
  Approved url start =
      (scan : Scan R) × (t : Session R) × Rounds url start scan
      × (retrieve_vector_set_result peer action url scan.session ≡ (success, t))
      × Approves t.curl_buf

  pub retrieve-fixed :
      (url : Option CStr) (s : Session R)
      → fixed (retrieve_vector_set_result peer action url s).1 ≡ fixed s
  retrieve-fixed url s =
      request-fixed peer json action f get_vs_result (attr_url_max - 1) url (codes "/results") none
        (pos 0) s

  report_status-fixed :
      (status vs_url : Option CStr) (rv : Result) (s : Session R)
      (more : Result → Session R → Result × Session R)
      → ((rv : Result) (t : Session R) → fixed (more rv t).1 ≡ fixed t)
      → fixed (report_status json peer action verbose status vs_url rv s more).1 ≡ fixed s
  unfolding report_status
  report_status-fixed none vs_url rv s more h = refl
  report_status-fixed (some status) vs_url rv s more h =
      let P = λ (r : Result × Session R). fixed r.1 ≡ fixed s in
      let failing = is_status (codes "fail") 4 status || is_status (codes "error") 5 status in
      let r = retrieve_vector_set_result peer action vs_url s in
      let kept = retrieve-fixed vs_url s in
      if-both P (failing && verbose)
        (if-both P (is_success r.0) {x = more r.0 r.1} {y = r} (h r.0 r.1 ∙ kept) kept) (h rv s)

  pub report_loop-fixed :
      (n i : ℕ) (arr : Option Array) (rv : Result) (s : Session R)
      → fixed (report_loop json peer action verbose n i arr rv s).1 ≡ fixed s
  unfolding report_loop
  report_loop-fixed zero i arr rv s = refl
  report_loop-fixed (suc n) i arr rv s =
      let current = object_at json peer action verbose arr i in
      report_status-fixed (string_of json current (codes "status"))
        (string_of json current (codes "vectorSetUrl")) rv s
        (report_loop json peer action verbose n (i + 1) arr) (report_loop-fixed n (i + 1) arr)

  -- All vector sets of the answer were counted.
  abbrev pub AllSettled : Option Array → ℕ → Type 0
  AllSettled results c =
      count_of json peer action verbose results ≤ c
      → (k : ℕ) → k < count_of json peer action verbose results
      → Settled json peer action f (status_in results k)

  pub scan_results-settled :
      (results : Option Array) (scan : Scan R)
      → (fixed (scan_results json peer action verbose results scan).2.session ≡ fixed scan.session)
        × AllSettled results (scan_results json peer action verbose results scan).1
  unfolding scan_results count_of object_at
  scan_results-settled none scan = (refl, λ h k lt. absurd (omega (arith, lt)))
  scan_results-settled (some arr) scan =
      let (kept, most, all) =
        scan_loop-Looped json peer action f (json.get_count arr) 0 arr 0 scan in
      (
        kept,
        λ h k lt.
            let e : 0 + k ≡ k = omega arith in
            subst (λ i. Settled json peer action f (status_in (some arr) i)) e
              (all (omega (arith, h)) k lt),
      )
