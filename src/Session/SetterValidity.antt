-- ===== src/Session/SetterValidity.antt =====
-- The setters of src/amvp.c with code of their own keep the string fields valid.
use libamvp.Common.{
  ℕ, zero, suc, ◌≤◌, ◌≡◌, refl, Bool, true, false, ◌||◌, not, Option, none, some, [], ◌∷◌, arith,
  ap, ltb, length, ℤ, ◌==◌, replicate, take, length-replicate,
}
use libamvp.Result.{Result, success, malloc_fail, invalid_arg, missing_arg, unsupported_op}
use libamvp.SafeC.Errno.{CStr, NoNul, Buf}
use libamvp.SafeC.Compare.{strnlen_s}
use libamvp.Session.Context.{
  Ptr, null, dangling, heap, Ctx, too_long, of_copy, session_params_str_len_max,
  request_str_len_max, json_filename_max,
}
use libamvp.Session.Setters.{
  set_server, set_certkey, mark_as_delete_only, set_get_save_file, then_key, set_key, store_name,
  is_port, finish_key, made_agent, with_agent,
}
use libamvp.SafeC.Copy.{strncpy_s}
use libamvp.SafeC.Copying.{strnlen-eq-min}
use libamvp.SafeC.Bounds.{strncpy_s_copies}
use libamvp.Session.Strings.{
  IsString, IsValid, Leaves, Stored, store_string-Stored, replace_string-Stored, too_long_le,
}
use libamvp.Session.Keeping.{assign-Leaves, IsArg, keep, IsAgent, if-Leaves}

made_agent-IsString :
    (p : Ptr) (agent : Option Buf) → IsString p → IsAgent agent → IsString (made_agent p agent)
made_agent-IsString null none v a = v
made_agent-IsString null (some b) v a = a
made_agent-IsString dangling agent v a = absurd v
made_agent-IsString (heap b) none v a = v
made_agent-IsString (heap b) (some d) v a = v

with_agent-IsValid :
    (agent : Option Buf) (c : Ctx) → IsAgent agent → IsValid c → IsValid (with_agent agent c)
with_agent-IsValid agent c a v =
    let h = made_agent-IsString c.http_user_agent agent v.http_user_agent a in assumption

left_false : (a b : Bool) → (a || b) ≡ false → a ≡ false
left_false a b h = ground arith

right_false : (a b : Bool) → (a || b) ≡ false → b ≡ false
right_false a b h = ground arith

pub set_server-Leaves :
    (c : Ctx) (s : Option CStr) (port : ℤ) (agent : Option Buf) (alloc : Bool)
    → IsValid c
    → IsArg s
    → IsAgent agent
    → Leaves IsValid (set_server c s port agent alloc)
unfolding set_server
set_server-Leaves c none port agent alloc v a g = keep c invalid_arg v
set_server-Leaves c (some s) port agent alloc v a g =
    if-Leaves (not (is_port port) || too_long session_params_str_len_max s) _ _
      (λ bad. keep c invalid_arg v)
      (λ fits.
        assign-Leaves IsValid _ _ (λ q k. assumption)
          (λ d k. with_agent-IsValid agent (record d { server_port = port }) g assumption) s alloc _
          (replace_string-Stored session_params_str_len_max c.server_name alloc s v.server_name a
            (too_long_le _ s (right_false _ _ fits))))

finish_key-Leaves :
    (c : Ctx) (s : CStr) (b : Bool) (o : Option (Result × Ptr))
    → IsValid c
    → Stored s b o
    → Leaves IsValid (finish_key c o)
unfolding finish_key
finish_key-Leaves c s true o v (p, e, h, w) =
    rw e (success, record c { tls_key = p }, refl, assumption)
finish_key-Leaves c s false o v (p, e, h, w) =
    let h' : IsString null = tt in
    rw e (malloc_fail, record c { tls_key = p; tls_cert = null }, refl, assumption)

then_key-Leaves :
    (key : CStr) (b : Bool) (r : Result) (c : Ctx)
    → NoNul key
    → length key ≤ session_params_str_len_max
    → IsValid c
    → Leaves IsValid (then_key key b (some (r, c)))
unfolding then_key set_key
then_key-Leaves key b success c nn h v =
    finish_key-Leaves c key b _ v
      (replace_string-Stored session_params_str_len_max c.tls_key b key v.tls_key nn h)
then_key-Leaves key b r c nn h v = keep c r v

pub set_certkey-Leaves :
    (c : Ctx) (cert key : Option CStr) (a b : Bool)
    → IsValid c
    → IsArg cert
    → IsArg key
    → Leaves IsValid (set_certkey c cert key a b)
unfolding set_certkey
set_certkey-Leaves c none key a b v p q = keep c missing_arg v
set_certkey-Leaves c (some cert) none a b v p q = keep c missing_arg v
set_certkey-Leaves c (some cert) (some key) a b v p q =
    if-Leaves (too_long session_params_str_len_max cert || too_long session_params_str_len_max key)
      _ _ (λ long. keep c invalid_arg v)
      (λ fits.
        let (r, d, e, u) =
          assign-Leaves IsValid (λ t. record c { tls_cert = t }) (λ d. d) (λ t k. assumption)
            (λ d k. k) cert a _
            (replace_string-Stored session_params_str_len_max c.tls_cert a cert v.tls_cert p
              (too_long_le _ cert (left_false _ _ fits))) in
        rw e (then_key-Leaves key b r d q (too_long_le _ key (right_false _ _ fits)) u))

pub mark_as_delete_only-Leaves :
    (c : Ctx) (s : Option CStr) (alloc : Bool)
    → IsValid c
    → IsArg s
    → Leaves IsValid (mark_as_delete_only c s alloc)
unfolding mark_as_delete_only
mark_as_delete_only-Leaves c none alloc v a = keep c missing_arg v
mark_as_delete_only-Leaves c (some s) alloc v a =
    if-Leaves (too_long request_str_len_max s || strnlen_s (some s) (suc request_str_len_max) == 0)
      _ _ (λ bad. keep c invalid_arg v)
      (λ fits.
        assign-Leaves IsValid _ _ (λ q k. assumption) (λ d k. assumption) s alloc _
          (store_string-Stored request_str_len_max alloc s a
            (too_long_le _ s (left_false _ _ fits))))

take_all : (n : ℕ) (s : CStr) → length s ≤ n → take n s ≡ s
take_all zero [] h = refl
take_all zero (c ∷ s) h = absurd (omega arith)
take_all (suc n) [] h = refl
take_all (suc n) (c ∷ s) h = rw (take_all n s (omega arith))

fresh_name :
    (s : CStr) (len : ℕ)
    → NoNul s
    → length s ≡ len
    → len ≤ json_filename_max
    → Stored s true (of_copy (strncpy_s (some (replicate (suc len) 0)) (suc len) (some s) len none))
fresh_name s len nn h k =
    let (b, e, v, l) =
      strncpy_s_copies (replicate (suc len) 0) (suc len) s len nn (omega arith) (omega arith)
        (omega (arith, length-replicate {A = ℕ} len 0)) (omega arith) in
    let all = take_all len s (omega arith) in
    (
      heap b,
      rw e,
      omega (arith, ap length v, ap length all, l, length-replicate {A = ℕ} len 0),
      rw (v, all),
    )

name_fits :
    (s : CStr) (other : Bool)
    → (ltb json_filename_max (strnlen_s (some s) (suc json_filename_max)) || other) ≡ false
    → (length s ≡ strnlen_s (some s) (suc json_filename_max))
      × (strnlen_s (some s) (suc json_filename_max) ≤ json_filename_max)
unfolding strnlen_s
name_fits s other h = ground (arith, strnlen-eq-min s (suc json_filename_max))

store_name-Stored :
    (p : Ptr) (alloc : Bool) (s : CStr) (len : ℕ)
    → IsString p
    → NoNul s
    → length s ≡ len
    → len ≤ json_filename_max
    → Stored s alloc (store_name p alloc s len)
unfolding store_name
store_name-Stored dangling alloc s len v nn h k = absurd v
store_name-Stored null false s len v nn h k = (null, refl, tt, refl)
store_name-Stored (heap b) false s len v nn h k = (null, refl, tt, refl)
store_name-Stored null true s len v nn h k = fresh_name s len nn h k
store_name-Stored (heap b) true s len v nn h k = fresh_name s len nn h k

pub set_get_save_file-Leaves :
    (c : Ctx) (s : Option CStr) (alloc : Bool)
    → IsValid c
    → IsArg s
    → Leaves IsValid (set_get_save_file c s alloc)
unfolding set_get_save_file
set_get_save_file-Leaves c none alloc v a = keep c missing_arg v
set_get_save_file-Leaves c (some s) alloc v a =
    let len = strnlen_s (some s) (suc json_filename_max) in
    if-Leaves (not c.get) _ _ (λ off. keep c unsupported_op v)
      (λ on.
        if-Leaves (ltb json_filename_max len || len == 0) _ _ (λ bad. keep c invalid_arg v)
          (λ fits.
            assign-Leaves IsValid _ _ (λ q k. assumption) (λ d k. assumption) s alloc _
              (store_name-Stored c.save_filename alloc s len v.save_filename a
                (name_fits s _ fits).0 (name_fits s _ fits).1)))
