-- ===== src/Flow/Results.antt =====
-- amvp_get_result_test_session of src/amvp.c up to the decision over the vector sets of one
-- answer. Allocations succeed. What a vector set of the answer does to the loop is a verdict;
-- `fault` is a read of the mode of an earlier vector set, which was freed with its JSON value.
use Prim.Native.Nat.{Ordering}
use libamvp.Common.{
  ℕ, zero, suc, ◌+◌, Bool, true, ◌&&◌, ◌||◌, Option, none, some, List, [], if◌then◌else◌, codes,
  replicate,
}
use libamvp.Result.{Result, is_success}
use libamvp.SafeC.Errno.{CStr}
use libamvp.SafeC.Compare.{strcmp_s}
use libamvp.SafeC.Copy.{strncpy_s}
use libamvp.Util.StringList.{ListPtr, word_of, is_equal, append_str_list, lookup_str_list}
use libamvp.Protocol.Json.{Json}
use libamvp.Env.Pages.{get_obj_from_rsp}
use libamvp.Session.Context.{request_str_len_max}
use libamvp.Flow.State.{Session, Peer}
use libamvp.Flow.Requests.{Action, retrieve_vector_set}
use libamvp.Flow.Login.{string_of}

pub data Verdict : Type 0 where
  leave broke skipped counted fault : Verdict

-- The variables of the function: the result, and the lists of what has failed; `stale` says that
-- `mode` points to a string of an earlier vector set.
pub record Scan (R : Type 0) : Type 0 where
  pub rv : Result
  pub session : Session R
  pub failed_vs : List (Option CStr)
  pub failed_algs : List (Option CStr)
  pub failed_modes : List (Option CStr)
  pub stale : Bool

abbrev pub Scanned : Type 0 → Type 0
Scanned R = Verdict × Scan R

-- `strcmp_s(word, n, status, &diff); !diff`
unfoldable pub is_status : CStr → ℕ → CStr → Bool
is_status word n status = is_equal (strcmp_s (some word) n (some status) Ordering.gt).1

abbrev pub list_of : ListPtr (Option CStr) → List (Option CStr)
list_of none = []
list_of (some xs) = xs

-- The URL is copied with at most AMVP_REQUEST_STR_LEN_MAX bytes.
unfoldable pub request_copy : CStr → Option CStr
request_copy vsurl = word_of (
    strncpy_s (some (replicate (request_str_len_max + 1) 0)) (request_str_len_max + 1) (some vsurl)
      request_str_len_max none)

abbrev pub mode_or_empty : Option CStr → CStr
mode_or_empty none = []
mode_or_empty (some mode) = mode

unfoldable pub add_mode : {R : Type 0} → Option CStr → Scan R → Scanned R
unfolding append_str_list
add_mode mode scan =
    let (rv, modes) = append_str_list (some scan.failed_modes) (mode_or_empty mode) in
    if is_success rv
    then (counted, record scan { rv = rv; failed_modes = list_of modes })
    else (skipped, record scan { rv = rv })

unfoldable pub add_failed : {R : Type 0} → CStr → Option CStr → Scan R → Scanned R
unfolding add_mode
add_failed alg mode scan =
    let (rv, algs) = append_str_list (some scan.failed_algs) alg in
    let added = add_mode mode (record scan { rv = rv; failed_algs = list_of algs }) in
    if is_success rv then added else (skipped, record scan { rv = rv })

-- The algorithm and mode are added unless both are in the lists.
unfoldable pub record_failed : {R : Type 0} → CStr → Option CStr → Scan R → Scanned R
unfolding add_failed lookup_str_list
record_failed alg mode scan =
    let added = add_failed alg mode scan in
    if lookup_str_list (some scan.failed_algs) (some alg)
      && lookup_str_list (some scan.failed_modes) mode
    then (counted, scan)
    else added

unfoldable pub name_failed : {R : Type 0} → Option CStr → Option CStr → Scan R → Scanned R
unfolding record_failed
name_failed none mode scan = (skipped, scan)
name_failed (some alg) none scan =
    let recorded = record_failed alg none scan in if scan.stale then (fault, scan) else recorded
name_failed (some alg) (some mode) scan =
    record_failed alg (some mode) (record scan { stale = true })

module _ {Value Array Object : Type 0} (json : Json Value Array Object) where
  unfoldable pub parse_failed : {R : Type 0} → Option Object → Scan R → Scanned R
  unfolding name_failed
  parse_failed none scan = (skipped, scan)
  parse_failed (some obj) scan =
      name_failed (json.get_string obj (codes "algorithm")) (json.get_string obj (codes "mode"))
        scan

  unfoldable pub object_of : Option Value → Option Object
  object_of none = none
  object_of (some val) = get_obj_from_rsp json val

  module _ {R : Type 0} (peer : Peer R) (action : Action R) where
    -- The vector set was downloaded.
    unfoldable pub after_failed : Scan R → Result × Session R → Scanned R
    unfolding parse_failed object_of
    after_failed scan (rv, s) =
        let scan' = record scan { rv = rv; session = s } in
        let parsed = parse_failed (object_of (json.parse_string s.curl_buf)) scan' in
        if is_success rv then parsed else (skipped, scan')

    unfoldable pub fetch_failed : CStr → Scan R → Scanned R
    unfolding after_failed append_str_list request_copy
    fetch_failed vsurl scan =
        let (rv, urls) = append_str_list (some scan.failed_vs) vsurl in
        let scan' = record scan { rv = rv; failed_vs = list_of urls } in
        let fetched =
          after_failed scan' (retrieve_vector_set peer action (request_copy vsurl) scan'.session) in
        if is_success rv then fetched else (skipped, record scan { rv = rv })

    -- A vector set that has failed; its details are downloaded once.
    unfoldable pub scan_failed : Option CStr → Scan R → Scanned R
    unfolding fetch_failed lookup_str_list
    scan_failed none scan = (broke, scan)
    scan_failed (some vsurl) scan =
        let fetched = fetch_failed vsurl scan in
        if lookup_str_list (some scan.failed_vs) (some vsurl) then (counted, scan) else fetched

    unfoldable pub scan_status : Option CStr → Option CStr → Scan R → Scanned R
    unfolding scan_failed is_status
    scan_status none vsurl scan = (leave, scan)
    scan_status (some status) vsurl scan =
        let failed = scan_failed vsurl scan in
        if is_status (codes "expired") 7 status || is_status (codes "unreceived") 10 status
        then (leave, scan)
        else (if is_status (codes "incomplete") 10 status
            then (skipped, scan)
            else (if is_status (codes "fail") 4 status then failed else (counted, scan)))

    unfoldable pub scan_item : Option Object → Scan R → Scanned R
    unfolding scan_status
    scan_item current scan =
        scan_status (string_of json current (codes "status"))
          (string_of json current (codes "vectorSetUrl")) scan

    -- How the loop has ended, and how many vector sets were counted.
    unfoldable pub go_on :
        Scanned R → ℕ → (ℕ → Scan R → Verdict × ℕ × Scan R) → Verdict × ℕ × Scan R
    go_on (skipped, scan) completed more = more completed scan
    go_on (counted, scan) completed more = more (completed + 1) scan
    go_on (v, scan) completed more = (v, completed, scan)

    -- The vector sets from index `i` on; the verdict `counted` is the end of the array.
    unfoldable pub scan_loop : ℕ → ℕ → Array → ℕ → Scan R → Verdict × ℕ × Scan R
    unfolding go_on scan_item
    scan_loop zero i arr completed scan = (counted, completed, scan)
    scan_loop (suc n) i arr completed scan =
        go_on (scan_item (json.get_object arr i) scan) completed (scan_loop n (i + 1) arr)
