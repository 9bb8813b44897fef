-- ===== src/Flow/Scanning.antt =====
-- What the loop over the vector sets of an answer does to the session, and when it counts all.
use libamvp.Common.{
  ℕ, zero, suc, ◌+◌, ◌-◌, ◌≤◌, ◌<◌, ◌≡◌, ◌≢◌, refl, ◌∙◌, ◌||◌, ◌&&◌, true, false, Option, none,
  some, arith, if-split, if-both, codes, pos, sym, [],
}
use libamvp.Result.{Result, success, is_success}
use libamvp.SafeC.Errno.{CStr}
use libamvp.SafeC.Compare.{strcmp, strcmp_s}
use libamvp.Util.StringList.{append_str_list, lookup_str_list, is_equal}
use libamvp.Protocol.Json.{Json}
use libamvp.Transport.Network.{get_vs}
use libamvp.Env.Pages.{attr_url_max}
use libamvp.Alg.Dispatching.{is_equal-strcmp}
use libamvp.Flow.State.{Session, Peer}
use libamvp.Flow.Requests.{Action, retrieve_vector_set}
use libamvp.Flow.Login.{string_of}
use libamvp.Flow.Frame.{fixed, Frames, request-fixed}
use libamvp.Flow.Results.{
  Verdict, leave, broke, skipped, counted, fault, Scan, Scanned, is_status, list_of, request_copy,
  add_mode, add_failed, record_failed, name_failed, parse_failed, object_of, after_failed,
  fetch_failed, scan_failed, scan_status, scan_item, go_on, scan_loop,
}

-- The session stays as it is.
abbrev Same : {R : Type 0} → Scan R → Scanned R → Type 0
Same scan r = fixed r.1.session ≡ fixed scan.session

record_failed-Same :
    {R : Type 0} (alg : CStr) (mode : Option CStr) (scan : Scan R)
    → Same scan (record_failed alg mode scan)
unfolding record_failed add_failed add_mode append_str_list
record_failed-Same alg mode scan =
    if-both (Same scan)
      (lookup_str_list (some scan.failed_algs) (some alg)
        && lookup_str_list (some scan.failed_modes) mode)
      {x = (counted, scan)} {y = add_failed alg mode scan} refl refl

name_failed-Same :
    {R : Type 0} (alg mode : Option CStr) (scan : Scan R) → Same scan (name_failed alg mode scan)
unfolding name_failed
name_failed-Same none mode scan = refl
name_failed-Same (some alg) none scan =
    if-both (Same scan) scan.stale {x = (fault, scan)} {y = record_failed alg none scan} refl
      (record_failed-Same alg none scan)
name_failed-Same (some alg) (some mode) scan =
    record_failed-Same alg (some mode) (record scan { stale = true })

module _ {Value Array Object : Type 0} (json : Json Value Array Object) where
  parse_failed-Same :
      {R : Type 0} (o : Option Object) (scan : Scan R) → Same scan (parse_failed json o scan)
  unfolding parse_failed
  parse_failed-Same none scan = refl
  parse_failed-Same (some obj) scan = name_failed-Same _ _ scan

  module _ {R : Type 0} (peer : Peer R) (action : Action R) (f : Frames peer json action) where
    after_failed-Same :
        (scan : Scan R) (r : Result × Session R)
        → fixed r.1 ≡ fixed scan.session
        → Same scan (after_failed json peer action scan r)
    unfolding after_failed
    after_failed-Same scan (rv, s) e =
        let scan' = record scan { rv = rv; session = s } in
        let o = object_of json (json.parse_string s.curl_buf) in
        if-both (Same scan) (is_success rv) {x = parse_failed json o scan'} {y = (skipped, scan')}
          (parse_failed-Same o scan' ∙ e) e

    fetch_failed-Same :
        (vsurl : CStr) (scan : Scan R) → Same scan (fetch_failed json peer action vsurl scan)
    unfolding fetch_failed append_str_list
    fetch_failed-Same vsurl scan =
        after_failed-Same
          (record scan {
            rv = success;
            failed_vs = list_of (append_str_list (some scan.failed_vs) vsurl).1;
          })
          (retrieve_vector_set peer action (request_copy vsurl) scan.session)
          (request-fixed peer json action f get_vs (attr_url_max - 1) (request_copy vsurl) [] none
            (pos 0) scan.session)

    scan_failed-Same :
        (vsurl : Option CStr) (scan : Scan R) → Same scan (scan_failed json peer action vsurl scan)
    unfolding scan_failed
    scan_failed-Same none scan = refl
    scan_failed-Same (some vsurl) scan =
        if-both (Same scan) (lookup_str_list (some scan.failed_vs) (some vsurl))
          {x = (counted, scan)} {y = fetch_failed json peer action vsurl scan} refl
          (fetch_failed-Same vsurl scan)

    -- A status that is neither missing nor one that stops or delays the results.
    abbrev pub Settled : Option CStr → Type 0
    Settled none = ⊥
    Settled (some status) =
        (status ≢ codes "expired") × (status ≢ codes "unreceived") × (status ≢ codes "incomplete")

    abbrev pub IfCounted : Option CStr → Verdict → Type 0
    IfCounted status counted = Settled status
    IfCounted status _ = Unit

    Settled-IfCounted : (status : Option CStr) (v : Verdict) → Settled status → IfCounted status v
    Settled-IfCounted status counted h = h
    Settled-IfCounted status leave h = tt
    Settled-IfCounted status broke h = tt
    Settled-IfCounted status skipped h = tt
    Settled-IfCounted status fault h = tt

    -- A vector set is counted with a settled status only, and the fixed fields stay.
    abbrev Judged : Option CStr → Scan R → Scanned R → Type 0
    Judged status scan r = IfCounted status r.0 × Same scan r

    differs : (word status : CStr) → is_equal (strcmp word status) ≡ false → status ≢ word
    differs word status b e =
        let (to, from) = is_equal-strcmp word status in ground (arith, b, from (sym e))

    scan_status-Judged :
        (status vsurl : Option CStr) (scan : Scan R)
        → Judged status scan (scan_status json peer action status vsurl scan)
    unfolding scan_status is_status strcmp_s
    scan_status-Judged none vsurl scan = (tt, refl)
    scan_status-Judged (some status) vsurl scan =
        let failed = scan_failed json peer action vsurl scan in
        let expired = is_equal (strcmp (codes "expired") status) in
        let unreceived = is_equal (strcmp (codes "unreceived") status) in
        let incomplete = is_equal (strcmp (codes "incomplete") status) in
        if-split (Judged (some status) scan) (expired || unreceived) (λ h. (tt, refl))
          (λ a.
            if-split (Judged (some status) scan) incomplete (λ h. (tt, refl))
              (λ b.
                let ok : Settled (some status) = (
                  differs (codes "expired") status (ground (arith, a)),
                  differs (codes "unreceived") status (ground (arith, a)),
                  differs (codes "incomplete") status b,
                ) in
                if-both (Judged (some status) scan) (is_equal (strcmp (codes "fail") status))
                  {x = failed} {y = (counted, scan)}
                  (Settled-IfCounted (some status) failed.0 ok, scan_failed-Same vsurl scan)
                  (ok, refl)))

    abbrev pub status_at : Array → ℕ → Option CStr
    status_at arr i = string_of json (json.get_object arr i) (codes "status")

    -- The loop counts at most the vector sets that it sees, and all of them only where every one
    -- has a settled status; the fixed fields stay.
    abbrev pub Looped : ℕ → ℕ → Array → ℕ → Scan R → Verdict × ℕ × Scan R → Type 0
    Looped n i arr completed scan (v, c, scan') =
        (fixed scan'.session ≡ fixed scan.session)
        × (c ≤ completed + n)
        × (completed + n ≤ c → (k : ℕ) → k < n → Settled (status_at arr (i + k)))

    all-Settled :
        (n i : ℕ) (arr : Array) (k : ℕ)
        → Settled (status_at arr i)
        → ((j : ℕ) → j < n → Settled (status_at arr (i + 1 + j)))
        → k < suc n
        → Settled (status_at arr (i + k))
    all-Settled n i arr zero a b h = rw (let e : i + 0 ≡ i = omega arith in e) a
    all-Settled n i arr (suc k) a b h =
        rw (let e : i + suc k ≡ i + 1 + k = omega arith in e) (b k (omega (arith, h)))

    go_on-Looped :
        (n i : ℕ) (arr : Array) (completed : ℕ) (scan : Scan R) (r : Scanned R)
        (more : ℕ → Scan R → Verdict × ℕ × Scan R)
        → Judged (status_at arr i) scan r
        → ((c : ℕ) (t : Scan R) → Looped n (i + 1) arr c t (more c t))
        → Looped (suc n) i arr completed scan (go_on json peer action r completed more)
    unfolding go_on
    go_on-Looped n i arr completed scan (leave, t) more (ok, same) ih =
        (same, omega arith, λ h. absurd (omega (arith, h)))
    go_on-Looped n i arr completed scan (broke, t) more (ok, same) ih =
        (same, omega arith, λ h. absurd (omega (arith, h)))
    go_on-Looped n i arr completed scan (fault, t) more (ok, same) ih =
        (same, omega arith, λ h. absurd (omega (arith, h)))
    go_on-Looped n i arr completed scan (skipped, t) more (ok, same) ih =
        let (kept, most, all) = ih completed t in
        (kept ∙ same, omega (arith, most), λ h. absurd (omega (arith, h, most)))
    go_on-Looped n i arr completed scan (counted, t) more (ok, same) ih =
        let (kept, most, all) = ih (completed + 1) t in
        (
          kept ∙ same,
          omega (arith, most),
          λ h k lt. all-Settled n i arr k ok (all (omega (arith, h))) lt,
        )

    pub scan_loop-Looped :
        (n i : ℕ) (arr : Array) (completed : ℕ) (scan : Scan R)
        → Looped n i arr completed scan (scan_loop json peer action n i arr completed scan)
    unfolding scan_loop scan_item
    scan_loop-Looped zero i arr completed scan =
        (refl, omega arith, λ h k lt. absurd (omega (arith, lt)))
    scan_loop-Looped (suc n) i arr completed scan =
        let current = json.get_object arr i in
        go_on-Looped n i arr completed scan (scan_item json peer action current scan)
          (scan_loop json peer action n (i + 1) arr)
          (scan_status-Judged (status_at arr i) (string_of json current (codes "vectorSetUrl"))
            scan)
          (scan_loop-Looped n (i + 1) arr)
