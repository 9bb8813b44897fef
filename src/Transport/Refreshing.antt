-- ===== src/Transport/Refreshing.antt =====
-- How often execute_network_action refreshes the session.
use libamvp.Common.{
  ℕ, ◌+◌, ◌≤◌, ◌≡◌, refl, Bool, true, false, not, ◌&&◌, Option, none, some, ℤ, arith, if-both,
  is_some, if◌then◌else◌,
}
use libamvp.Result.{Result, is_success}
use libamvp.SafeC.Errno.{CStr}
use libamvp.Protocol.Json.{Json}
use libamvp.Transport.Network.{
  NetAction, get, get_vs, get_docs, get_vs_result, get_vs_sample, post, post_login, post_reg,
  post_vs_resp, put, put_validation, delete, Net, inspect, is_unsupported, send_responses, send,
  send_again, after_refresh, after_send, is_expired, is_login, execute_network_action,
}

-- `count` is a number of refreshes: the requests keep it, and a refresh adds one.
pub record Counts {W : Type 0} (net : Net W) (count : W → ℕ) : Type 0 where
  pub get_keeps : (url : CStr) (w : W) → count (net.http_get url w).1 ≡ count w
  pub post_keeps :
      (url : CStr) (body : Option CStr) (len : ℤ) (w : W)
      → count (net.http_post url body len w).1 ≡ count w
  pub put_keeps :
      (url : CStr) (body : Option CStr) (len : ℤ) (w : W)
      → count (net.http_put url body len w).1 ≡ count w
  pub delete_keeps : (url : CStr) (w : W) → count (net.http_delete url w).1 ≡ count w
  pub refresh_adds : (w : W) → count (net.refresh w).1 ≡ count w + 1

module _ {Value Array Object W : Type 0} (json : Json Value Array Object) (net : Net W)
    (count : W → ℕ) (k : Counts net count) where
  send_responses-count :
      (url : CStr) (resp : Option (CStr × ℤ)) (w : W)
      → count (send_responses json net url resp w).1 ≡ count w
  unfolding send_responses
  send_responses-count url none w = refl
  send_responses-count url (some resp) w =
      let sent = net.http_post url (some resp.0) resp.1 w in
      if-both (λ (r : ℕ × W). count r.1 ≡ count w) (is_unsupported (inspect json net sent.0 sent.1))
        (omega (
          arith,
          k.put_keeps url (some resp.0) resp.1 sent.1,
          k.post_keeps url (some resp.0) resp.1 w,
        ))
        (k.post_keeps url (some resp.0) resp.1 w)

  send-count :
      (action : NetAction) (url : CStr) (body : Option CStr) (len : ℤ) (resp : Option (CStr × ℤ))
      (w : W)
      → count (send json net action url body len resp w).1 ≡ count w
  unfolding send
  send-count get url body len resp w = k.get_keeps url w
  send-count get_vs url body len resp w = k.get_keeps url w
  send-count get_docs url body len resp w = k.get_keeps url w
  send-count get_vs_result url body len resp w = k.get_keeps url w
  send-count get_vs_sample url body len resp w = k.get_keeps url w
  send-count post url body len resp w = k.post_keeps url body len w
  send-count post_login url body len resp w = k.post_keeps url body len w
  send-count post_reg url body len resp w = k.post_keeps url body len w
  send-count put url body len resp w = k.put_keeps url body len w
  send-count put_validation url body len resp w = k.put_keeps url body len w
  send-count post_vs_resp url body len resp w = send_responses-count url resp w
  send-count delete url body len resp w = k.delete_keeps url w

  send_again-count :
      (action : NetAction) (url : CStr) (body : Option CStr) (len : ℤ) (resp : Option (CStr × ℤ))
      (rc : ℕ) (w : W)
      → count (send_again json net action url body len resp rc w).1 ≡ count w
  unfolding send_again
  send_again-count post_login url body len resp rc w = refl
  send_again-count delete url body len resp rc w = k.delete_keeps url w
  send_again-count action url body len resp rc w = send-count action url body len resp w

  after_refresh-count :
      (action : NetAction) (url : CStr) (body : Option CStr) (len : ℤ) (resp : Option (CStr × ℤ))
      (rc : ℕ) (r : Result × W)
      → count (after_refresh json net action url body len resp rc r).2 ≡ count r.1
  unfolding after_refresh
  after_refresh-count action url body len resp rc (rv, w) =
      if-both (λ (r : Result × ℕ × W). count r.2 ≡ count w) (is_success rv)
        (send_again-count action url body len resp rc w) refl

  inspected-count :
      (login : Bool) (rc : ℕ) (w : W) (r : Result × ℕ × W) (b : Bool)
      → count r.2 ≤ count w + 1
      → count (if b && not login then r else (inspect json net rc w, rc, w)).2
        ≤ count w + (if login then 0 else 1)
  inspected-count true rc w r true h = omega arith
  inspected-count true rc w r false h = omega arith
  inspected-count false rc w r true h = h
  inspected-count false rc w r false h = omega arith

  after_send-count :
      (action : NetAction) (url : CStr) (body : Option CStr) (len : ℤ) (resp : Option (CStr × ℤ))
      (sent : ℕ × W)
      → count (after_send json net action url body len resp sent).2
        ≤ count sent.1 + (if is_login action then 0 else 1)
  unfolding after_send
  after_send-count action url body len resp (rc, w) =
      let r = after_refresh json net action url body len resp rc (net.refresh w) in
      let bound : count r.2 ≤ count w + 1 = omega (
        arith,
        after_refresh-count action url body len resp rc (net.refresh w),
        k.refresh_adds w,
      ) in
      inspected-count (is_login action) rc w r (is_expired (inspect json net rc w)) bound

  -- Whatever the answers are, an action refreshes the session at most once, and a login never: a
  -- count that requests keep and a refresh raises by one grows by at most one, or not at all.
  pub execute_network_action-refreshes :
      (action : NetAction) (url : CStr) (body : Option CStr) (len : ℤ) (w : W)
      → count (execute_network_action json net action url body len w).2
        ≤ count w + (if is_login action then 0 else 1)
  unfolding execute_network_action
  execute_network_action-refreshes post_vs_resp url body len w =
      let sent = send json net post_vs_resp url body len (net.serialize w) w in
      let bound = after_send-count post_vs_resp url body len (net.serialize w) sent in
      if-both (λ (r : Result × ℕ × W). count r.2 ≤ count w + 1) (is_some (net.serialize w))
        (omega (arith, bound, send-count post_vs_resp url body len (net.serialize w) w))
        (omega arith)
  execute_network_action-refreshes action url body len w =
      let sent = send json net action url body len none w in
      omega (
        arith,
        after_send-count action url body len none sent,
        send-count action url body len none w,
      )
