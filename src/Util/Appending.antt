-- ===== src/Util/Appending.antt =====
-- What the appends of src/amvp_util.c leave in their lists.
use libamvp.Common.{
  ℤ, ◌||◌, ℕ, zero, suc, ◌+◌, ◌≤◌, ◌≡◌, refl, ap, true, Option, none, some, List, [], ◌∷◌, ◌++◌,
  arith, take, length, length-replicate, replicate,
}
use libamvp.Result.{success}
use libamvp.SafeC.Errno.{CStr, NoNul}
use libamvp.SafeC.Compare.{strnlen, strnlen_s}
use libamvp.SafeC.Copy.{strcpy_s}
use libamvp.SafeC.Copying.{strcpy_s_copies, strnlen-eq-min}
use libamvp.SafeC.Bounds.{strncpy_s_copies}
use libamvp.Protocol.Errors.{same_int}
use libamvp.Util.StringList.{
  append_param_list, lookup_param_list, append_node, append_name_list, append_name, is_in_name_list,
  append_str_list, kv_list_append, string_fits, kv_node, word_of, append_word,
}

pub append_node_lem : {A : Type 0} (xs : List A) (a : A) → append_node xs a ≡ xs ++ (a ∷ [])
unfolding append_node
append_node_lem [] a = refl
append_node_lem (x ∷ xs) a = ap (λ ys. x ∷ ys) (append_node_lem xs a)

append_name_found :
    (list : List (Option ℕ)) (string : ℕ) → is_in_name_list (append_name list string) string ≡ true
unfolding append_name is_in_name_list
append_name_found [] string = ground arith
append_name_found (none ∷ list) string = ground arith
append_name_found (some name ∷ list) string = ground (arith, append_name_found list string)

-- An address that was appended to a name list is found in it.
pub append_name_list-is_in_name_list :
    (list : List (Option ℕ)) (string : ℕ)
    → (after : List (Option ℕ)) × (append_name_list (some list) string ≡ (success, some after))
      × (is_in_name_list after string ≡ true)
unfolding append_name_list
append_name_list-is_in_name_list list string =
    (append_name list string, refl, append_name_found list string)

take-strnlen : (s : CStr) (n : ℕ) → take (strnlen s n) s ≡ take n s
unfolding strnlen
take-strnlen s zero = refl
take-strnlen [] (suc n) = refl
take-strnlen (c ∷ s) (suc n) = ap (λ t. c ∷ t) (take-strnlen s n)

string_fits_lem : (s : CStr) (n : ℕ) → length s ≤ n → string_fits s n ≡ true
unfolding string_fits strnlen_s
string_fits_lem s n h = ground (arith, strnlen-eq-min s (n + 1))

pub kv_word :
    (s : CStr)
    → NoNul s
    → length s ≤ 256
    → word_of (strcpy_s (some (replicate 257 0)) 257 (some s)) ≡ some s
kv_word s nn h =
    let (b, e, v, within) =
      strcpy_s_copies (replicate 257 0) s 257 nn (omega (arith, length-replicate {A = ℕ} 257 0))
        (omega arith) in
    rw (e, v) refl

-- A string of up to 256 bytes is appended whole, a longer one is cut to 256 bytes.
pub append_str_list_appends :
    (list : List (Option CStr)) (string : CStr)
    → NoNul string
    → append_str_list (some list) string ≡ (success, some (list ++ (some (take 256 string) ∷ [])))
unfolding append_str_list append_word strnlen_s
append_str_list_appends list string nn =
    let n = strnlen string 256 in
    let (b, e, v, l) =
      strncpy_s_copies (replicate (n + 1) 0) (n + 1) string n nn
        (omega (arith, strnlen-eq-min string 256)) (omega (arith, strnlen-eq-min string 256))
        (omega (arith, length-replicate {A = ℕ} (n + 1) 0)) (omega arith) in
    rw (e, v, append_node_lem list (some (take n string)), take-strnlen string 256) refl

-- A key and a value of up to 256 bytes are appended whole, behind the entries before.
pub kv_list_append_appends :
    (kvs : List (Option CStr × Option CStr)) (key value : CStr)
    → NoNul key
    → NoNul value
    → length key ≤ 256
    → length value ≤ 256
    → kv_list_append (some kvs) (some key) (some value)
      ≡ (success, some (kvs ++ ((some key, some value) ∷ [])))
unfolding kv_list_append kv_node
kv_list_append_appends kvs key value nk nv hk hv =
    rw
      (
        string_fits_lem key 256 hk,
        string_fits_lem value 256 hv,
        kv_word key nk hk,
        kv_word value nv hv,
      )
      (ap (λ l. (success, some l)) (append_node_lem kvs (some key, some value)))

append_node-lookup_param_list :
    (list : List ℤ) (param value : ℤ)
    → lookup_param_list (append_node list param) value
      ≡ (lookup_param_list list value || same_int value param)
unfolding append_node lookup_param_list
append_node-lookup_param_list [] param value = ground arith
append_node-lookup_param_list (x ∷ list) param value =
    ground (arith, append_node-lookup_param_list list param value)

-- After a value is appended to a parameter list, a lookup finds what it found before and the
-- value, and nothing else.
pub append_param_list-lookup_param_list :
    (list : List ℤ) (param : ℤ)
    → (after : List ℤ) × (append_param_list (some list) param ≡ (success, some after))
      × ((value : ℤ)
          → lookup_param_list after value ≡ (lookup_param_list list value || same_int value param))
unfolding append_param_list
append_param_list-lookup_param_list list param =
    (append_node list param, refl, λ value. append_node-lookup_param_list list param value)
