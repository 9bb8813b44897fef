-- ===== src/Transport/Preserving.antt =====
-- What every request and the refresh keep, an action of the network keeps.
use libamvp.Common.{ℕ, not, ◌&&◌, ◌||◌, Option, none, some, ℤ, if-both, is_some, is_zero}
use libamvp.Result.{Result, is_success}
use libamvp.SafeC.Errno.{CStr}
use libamvp.Protocol.Json.{Json}
use libamvp.Transport.Network.{
  NetAction, get, get_vs, get_docs, get_vs_result, get_vs_sample, post, post_login, post_reg,
  post_vs_resp, put, put_validation, delete, Net, inspect, is_unsupported, send_responses, send,
  send_again, after_refresh, after_send, is_expired, is_login, execute_network_action, act,
  check_data, generic_action, cleared,
}

pub record Keeps {W : Type 0} (net : Net W) (P : W → Type 0) : Type 0 where
  pub get_keeps : (url : CStr) (w : W) → P w → P (net.http_get url w).1
  pub post_keeps :
      (url : CStr) (body : Option CStr) (len : ℤ) (w : W) → P w → P (net.http_post url body len w).1
  pub put_keeps :
      (url : CStr) (body : Option CStr) (len : ℤ) (w : W) → P w → P (net.http_put url body len w).1
  pub delete_keeps : (url : CStr) (w : W) → P w → P (net.http_delete url w).1
  pub refresh_keeps : (w : W) → P w → P (net.refresh w).1
  pub forget_keeps : (w : W) → P w → P (net.forget_token w)

module _ {Value Array Object W : Type 0} (json : Json Value Array Object) (net : Net W)
    (P : W → Type 0) (k : Keeps net P) where
  send_responses-keeps :
      (url : CStr) (resp : Option (CStr × ℤ)) (w : W)
      → P w
      → P (send_responses json net url resp w).1
  unfolding send_responses
  send_responses-keeps url none w p = p
  send_responses-keeps url (some resp) w p =
      let sent = net.http_post url (some resp.0) resp.1 w in
      let kept = k.post_keeps url (some resp.0) resp.1 w p in
      if-both (λ (r : ℕ × W). P r.1) (is_unsupported (inspect json net sent.0 sent.1))
        (k.put_keeps url (some resp.0) resp.1 sent.1 kept) kept

  send-keeps :
      (action : NetAction) (url : CStr) (body : Option CStr) (len : ℤ) (resp : Option (CStr × ℤ))
      (w : W)
      → P w
      → P (send json net action url body len resp w).1
  unfolding send
  send-keeps get url body len resp w p = k.get_keeps url w p
  send-keeps get_vs url body len resp w p = k.get_keeps url w p
  send-keeps get_docs url body len resp w p = k.get_keeps url w p
  send-keeps get_vs_result url body len resp w p = k.get_keeps url w p
  send-keeps get_vs_sample url body len resp w p = k.get_keeps url w p
  send-keeps post url body len resp w p = k.post_keeps url body len w p
  send-keeps post_login url body len resp w p = k.post_keeps url body len w p
  send-keeps post_reg url body len resp w p = k.post_keeps url body len w p
  send-keeps put url body len resp w p = k.put_keeps url body len w p
  send-keeps put_validation url body len resp w p = k.put_keeps url body len w p
  send-keeps post_vs_resp url body len resp w p = send_responses-keeps url resp w p
  send-keeps delete url body len resp w p = k.delete_keeps url w p

  send_again-keeps :
      (action : NetAction) (url : CStr) (body : Option CStr) (len : ℤ) (resp : Option (CStr × ℤ))
      (rc : ℕ) (w : W)
      → P w
      → P (send_again json net action url body len resp rc w).1
  unfolding send_again
  send_again-keeps post_login url body len resp rc w p = p
  send_again-keeps delete url body len resp rc w p = k.delete_keeps url w p
  send_again-keeps action url body len resp rc w p = send-keeps action url body len resp w p

  after_refresh-keeps :
      (action : NetAction) (url : CStr) (body : Option CStr) (len : ℤ) (resp : Option (CStr × ℤ))
      (rc : ℕ) (r : Result × W)
      → P r.1
      → P (after_refresh json net action url body len resp rc r).2
  unfolding after_refresh
  after_refresh-keeps action url body len resp rc (rv, w) p =
      if-both (λ (r : Result × ℕ × W). P r.2) (is_success rv)
        (send_again-keeps action url body len resp rc w p) p

  after_send-keeps :
      (action : NetAction) (url : CStr) (body : Option CStr) (len : ℤ) (resp : Option (CStr × ℤ))
      (sent : ℕ × W)
      → P sent.1
      → P (after_send json net action url body len resp sent).2
  unfolding after_send
  after_send-keeps action url body len resp (rc, w) p =
      if-both (λ (r : Result × ℕ × W). P r.2)
        (is_expired (inspect json net rc w) && not (is_login action))
        (after_refresh-keeps action url body len resp rc (net.refresh w) (k.refresh_keeps w p)) p

  execute-keeps :
      (action : NetAction) (url : CStr) (body : Option CStr) (len : ℤ) (w : W)
      → P w
      → P (execute_network_action json net action url body len w).2
  unfolding execute_network_action
  execute-keeps post_vs_resp url body len w p =
      let resp = net.serialize w in
      if-both (λ (r : Result × ℕ × W). P r.2) (is_some resp)
        (after_send-keeps post_vs_resp url body len resp _
          (send-keeps post_vs_resp url body len resp w p))
        p
  execute-keeps action url body len w p =
      after_send-keeps action url body len none _ (send-keeps action url body len none w p)

  cleared-keeps : (action : NetAction) (w : W) → P w → P (cleared json net action w)
  cleared-keeps post_login w p = k.forget_keeps w p
  cleared-keeps _ w p = p

  pub act-keeps :
      (action : NetAction) (url body : Option CStr) (len : ℤ) (w : W)
      → P w
      → P (act json net action url body len w).1
  unfolding act
  act-keeps action none body len w p = p
  act-keeps action (some url) body len w p =
      let start = cleared-keeps action w p in
      if-both (λ (r : Result × W). P r.1) (check_data action && (not (is_some body) || is_zero len))
        start (execute-keeps (generic_action action) url body len _ start)
