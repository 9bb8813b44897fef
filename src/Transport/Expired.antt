-- ===== src/Transport/Expired.antt =====
-- How inspect_http_code recognises an expired token.
use libamvp.Common.{
  ℕ, ◌+◌, ◌≤◌, ◌≡◌, refl, ap, true, false, some, [], ◌∷◌, ◌++◌, arith, length, take, replicate,
  length-replicate, codes, is_some,
}
use libamvp.Result.{jwt_expired}
use libamvp.SafeC.Errno.{CStr, NoNul}
use libamvp.SafeC.Compare.{is_prefix, strstr, strstr_s, strnlen, strnlen_s}
use libamvp.SafeC.Copying.{strnlen-eq-min}
use libamvp.SafeC.Bounds.{strncpy_s_copies}
use libamvp.Protocol.Json.{Json}
use libamvp.Protocol.Errors.{is_protocol_error_message, root_array}
use libamvp.Transport.Network.{
  match_jwt, match_copy, match_error, second_error, error_of, inspect_http_code, curl_buf_max,
}

is_prefix-append : (sub post : CStr) → is_prefix sub (sub ++ post) ≡ true
unfolding is_prefix
is_prefix-append [] post = refl
is_prefix-append (c ∷ sub) post = ground (arith, is_prefix-append sub post)

strstr_prefix : (s sub : CStr) → is_prefix sub s ≡ true → is_some (strstr s sub) ≡ true
unfolding strstr
strstr_prefix [] sub h = ground (arith, h)
strstr_prefix (c ∷ s) sub h = ground (arith, h)

strstr_found : (pre sub post : CStr) → is_some (strstr (pre ++ (sub ++ post)) sub) ≡ true
unfolding strstr
strstr_found [] sub post = strstr_prefix (sub ++ post) sub (is_prefix-append sub post)
strstr_found (c ∷ pre) sub post = ground (arith, strstr_found pre sub post)

match_jwt_expired :
    (pre post : CStr) → match_jwt (pre ++ (codes "JWT expired" ++ post)) ≡ jwt_expired
unfolding match_jwt strstr_s
match_jwt_expired pre post = rw (strstr_found pre (codes "JWT expired") post) refl

take_all : (s : CStr) → take (length s) s ≡ s
take_all [] = refl
take_all (c ∷ s) = ap (λ t. c ∷ t) (take_all s)

match_error-eq : (s : CStr) → NoNul s → length s ≤ curl_buf_max → match_error (some s) ≡ match_jwt s
unfolding match_error match_copy strnlen_s
match_error-eq s nn h =
    let n = length s in
    let seen : strnlen s curl_buf_max ≡ n = omega (arith, strnlen-eq-min s curl_buf_max) in
    let (b, e, v, l) =
      strncpy_s_copies (replicate (n + 1) 0) (n + 1) s n nn (omega arith) (omega arith)
        (omega (arith, length-replicate {A = ℕ} (n + 1) 0)) (omega arith) in
    rw (seen, e, v, take_all s) refl

-- A body with code 401 that is no protocol error, whose top level is an array with an object at
-- index 1 and in it a string "error" that contains "JWT expired", is read as an expired token.
pub inspect_http_code_expired :
    {Value Array Object : Type 0} (json : Json Value Array Object) (body : CStr) (root : Value)
    (arr : Array) (obj : Object) (pre post : CStr)
    → is_protocol_error_message json (some body) ≡ false
    → json.parse_string (some body) ≡ some root
    → json.get_array root ≡ some arr
    → json.get_object arr 1 ≡ some obj
    → json.get_string obj (codes "error") ≡ some (pre ++ (codes "JWT expired" ++ post))
    → NoNul (pre ++ (codes "JWT expired" ++ post))
    → length (pre ++ (codes "JWT expired" ++ post)) ≤ curl_buf_max
    → inspect_http_code json (some body) 401 ≡ jwt_expired
unfolding inspect_http_code second_error error_of root_array
inspect_http_code_expired json body root arr obj pre post other p a o g nn l =
    rw (other, p, a, o, g, match_error-eq _ nn l) (match_jwt_expired pre post)
