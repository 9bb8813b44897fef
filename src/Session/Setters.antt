-- ===== src/Session/Setters.antt =====
-- The functions of src/amvp.c that configure a session. A context is not NULL here; every one of
-- them starts by returning AMVP_NO_CTX for a NULL context. `alloc` says whether `calloc` succeeds.
use libamvp.Common.{
  ℕ, suc, Bool, true, false, Option, none, some, ltb, leb, ◌==◌, ◌||◌, if◌then◌else◌, ℤ, pos,
  negsuc, replicate, not,
}
use libamvp.Result.{
  Result, success, malloc_fail, missing_arg, invalid_arg, unsupported_op, is_success,
}
use libamvp.SafeC.Errno.{CStr, Buf}
use libamvp.SafeC.Compare.{strnlen_s}
use libamvp.SafeC.Copy.{strncpy_s}
use libamvp.Session.Context.{
  Ptr, null, dangling, heap, Ctx, Outcome, store_string, replace_string, too_long, assign, of_copy,
  session_params_str_len_max, request_str_len_max, json_filename_max,
}

-- The pointer after `if (p) free(p);`, where it is not assigned again.
unfoldable pub release : Ptr → Option Ptr
release null = some null
release dangling = none
release (heap b) = some dangling

-- The length is tested only after the old name was released.
unfoldable pub rename_json : Ctx → CStr → Bool → Option Ptr → Outcome
unfolding store_string assign strnlen_s
rename_json c name alloc none = none
rename_json c name alloc (some p) =
    if too_long json_filename_max name
    then some (invalid_arg, record c { json_filename = p })
    else assign (store_string json_filename_max alloc name) (λ q. record c { json_filename = q })
        (λ d. record d { use_json = true })

unfoldable pub set_json_filename : Ctx → Option CStr → Bool → Outcome
unfolding release rename_json
set_json_filename c none alloc = some (missing_arg, c)
set_json_filename c (some name) alloc =
    if not c.vector_req
    then some (unsupported_op, c)
    else rename_json c name alloc (release c.json_filename)

abbrev pub is_port : ℤ → Bool
is_port (pos n) = leb 1 n
is_port (negsuc n) = false

-- The user agent that amvp_http_user_agent_handler makes where the context has none; NULL where
-- its allocation fails.
abbrev pub made_agent : Ptr → Option Buf → Ptr
made_agent null (some b) = heap b
made_agent null none = null
made_agent p o = p

abbrev pub with_agent : Option Buf → Ctx → Ctx
with_agent agent c = record c { http_user_agent = made_agent c.http_user_agent agent }

unfoldable pub set_server : Ctx → Option CStr → ℤ → Option Buf → Bool → Outcome
unfolding replace_string assign strnlen_s
set_server c none port agent alloc = some (invalid_arg, c)
set_server c (some name) port agent alloc =
    if not (is_port port) || too_long session_params_str_len_max name
    then some (invalid_arg, c)
    else assign (replace_string session_params_str_len_max c.server_name alloc name)
        (λ p. record c { server_name = p })
        (λ d. with_agent agent (record d { server_port = port }))

-- The shape of most setters: an error for a missing string, a limit on its length, the field, and
-- what is set once the string is stored.
unfoldable pub set_field :
    Ctx → Result → ℕ → Ptr → (Ptr → Ctx) → (Ctx → Ctx) → Option CStr → Bool → Outcome
unfolding replace_string assign strnlen_s
set_field c missing max p set finish none alloc = some (missing, c)
set_field c missing max p set finish (some s) alloc =
    if too_long max s
    then some (invalid_arg, c)
    else assign (replace_string max p alloc s) set finish

unfoldable pub set_path_segment : Ctx → Option CStr → Bool → Outcome
unfolding set_field
set_path_segment c =
    set_field c invalid_arg session_params_str_len_max c.path_segment
      (λ p. record c { path_segment = p }) (λ d. d)

unfoldable pub set_api_context : Ctx → Option CStr → Bool → Outcome
unfolding set_field
set_api_context c =
    set_field c invalid_arg session_params_str_len_max c.api_context
      (λ p. record c { api_context = p }) (λ d. d)

unfoldable pub set_cacerts : Ctx → Option CStr → Bool → Outcome
unfolding set_field
set_cacerts c =
    set_field c missing_arg session_params_str_len_max c.cacerts_file
      (λ p. record c { cacerts_file = p }) (λ d. d)

-- The key, once the certificate is stored: where its allocation fails the certificate goes.
unfoldable pub finish_key : Ctx → Option (Result × Ptr) → Outcome
finish_key c none = none
finish_key c (some (rv, p)) =
    if is_success rv
    then some (success, record c { tls_key = p })
    else some (malloc_fail, record c { tls_key = p; tls_cert = null })

unfoldable pub set_key : Ctx → CStr → Bool → Outcome
unfolding replace_string finish_key
set_key c key_file alloc =
    finish_key c (replace_string session_params_str_len_max c.tls_key alloc key_file)

unfoldable pub then_key : CStr → Bool → Outcome → Outcome
unfolding set_key
then_key key_file alloc none = none
then_key key_file alloc (some (success, c)) = set_key c key_file alloc
then_key key_file alloc (some (rv, c)) = some (rv, c)

unfoldable pub set_certkey : Ctx → Option CStr → Option CStr → Bool → Bool → Outcome
unfolding then_key replace_string assign strnlen_s
set_certkey c none key_file alloc_cert alloc_key = some (missing_arg, c)
set_certkey c (some cert) none alloc_cert alloc_key = some (missing_arg, c)
set_certkey c (some cert) (some key) alloc_cert alloc_key =
    if too_long session_params_str_len_max cert || too_long session_params_str_len_max key
    then some (invalid_arg, c)
    else then_key key alloc_key (
        assign (replace_string session_params_str_len_max c.tls_cert alloc_cert cert)
          (λ p. record c { tls_cert = p }) (λ d. d))

unfoldable pub mark_as_sample : Ctx → Outcome
mark_as_sample c = some (success, record c { is_sample = true })

unfoldable pub mark_as_request_only : Ctx → Option CStr → Bool → Outcome
unfolding set_field
mark_as_request_only c =
    set_field c missing_arg session_params_str_len_max c.vector_req_file
      (λ p. record c { vector_req_file = p }) (λ d. record d { vector_req = true })

unfoldable pub mark_as_get_only : Ctx → Option CStr → Bool → Outcome
unfolding set_field
mark_as_get_only c =
    set_field c missing_arg request_str_len_max c.get_string (λ p. record c { get_string = p })
      (λ d. record d { get = true })

unfoldable pub mark_as_put_after_test : Ctx → Option CStr → Bool → Outcome
unfolding set_field
mark_as_put_after_test c =
    set_field c missing_arg session_params_str_len_max c.put_filename
      (λ p. record c { put_filename = p }) (λ d. record d { put = true })

unfoldable pub mark_as_cert_req : Ctx → Option CStr → Bool → Outcome
unfolding set_field
mark_as_cert_req c =
    set_field c missing_arg session_params_str_len_max c.mod_cert_req_file
      (λ p. record c { mod_cert_req_file = p }) (λ d. record d { mod_cert_req = true })

unfoldable pub mark_as_post_only : Ctx → Option CStr → Bool → Outcome
unfolding set_field
mark_as_post_only c =
    set_field c missing_arg session_params_str_len_max c.post_filename
      (λ p. record c { post_filename = p }) (λ d. record d { post = true })

unfoldable pub mark_as_post_resources : Ctx → Option CStr → Bool → Outcome
unfolding set_field
mark_as_post_resources c =
    set_field c missing_arg session_params_str_len_max c.post_resources_filename
      (λ p. record c { post_resources_filename = p }) (λ d. record d { post_resources = true })

-- The string of an earlier request is not freed, it is lost.
unfoldable pub mark_as_delete_only : Ctx → Option CStr → Bool → Outcome
unfolding store_string assign strnlen_s
mark_as_delete_only c none alloc = some (missing_arg, c)
mark_as_delete_only c (some url) alloc =
    if too_long request_str_len_max url || strnlen_s (some url) (suc request_str_len_max) == 0
    then some (invalid_arg, c)
    else assign (store_string request_str_len_max alloc url) (λ p. record c { delete_string = p })
        (λ d. record d { delete = true })

-- The object has just the size of the name.
unfoldable pub store_name : Ptr → Bool → CStr → ℕ → Option (Result × Ptr)
unfolding strncpy_s
store_name dangling alloc s len = none
store_name p false s len = some (malloc_fail, null)
store_name p true s len =
    of_copy (strncpy_s (some (replicate (suc len) 0)) (suc len) (some s) len none)

unfoldable pub set_get_save_file : Ctx → Option CStr → Bool → Outcome
unfolding store_name assign strnlen_s
set_get_save_file c none alloc = some (missing_arg, c)
set_get_save_file c (some name) alloc =
    let len = strnlen_s (some name) (suc json_filename_max) in
    if not c.get
    then some (unsupported_op, c)
    else (if ltb json_filename_max len || len == 0
        then some (invalid_arg, c)
        else assign (store_name c.save_filename alloc name len)
            (λ p. record c { save_filename = p }) (λ d. d))
