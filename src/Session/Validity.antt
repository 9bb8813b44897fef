-- ===== src/Session/Validity.antt =====
-- Every configuration call keeps the string fields valid, but for a JSON file name that is too
-- long.
use libamvp.Common.{suc, ◌<◌, ◌≡◌, refl, Bool, true, none, some, List, [], ◌∷◌, arith, length, All}
use libamvp.Result.{success, invalid_arg, missing_arg}
use libamvp.SafeC.Errno.{CStr, Buf}
use libamvp.Session.Context.{
  dangling, heap, Ctx, session_params_str_len_max, request_str_len_max, json_filename_max,
}
use libamvp.Session.Setters.{
  release, rename_json, set_json_filename, set_path_segment, set_api_context, set_cacerts,
  mark_as_sample, mark_as_request_only, mark_as_get_only, mark_as_put_after_test, mark_as_cert_req,
  mark_as_post_only, mark_as_post_resources,
}
use libamvp.SafeC.Copying.{strnlen-eq-min}
use libamvp.Session.Calls.{
  Call, json_filename, server, path_segment, api_context, cacerts, certkey, sample, request_only,
  get_only, put_after_test, cert_req, post_only, post_resources, delete_only, get_save_file, apply,
  configure,
}
use libamvp.Session.Strings.{IsValid, Leaves}
use libamvp.Session.Keeping.{set_field-Leaves, keep, IsCall, set_json_filename-Leaves}
use libamvp.Session.SetterValidity.{
  set_server-Leaves, set_certkey-Leaves, mark_as_delete_only-Leaves, set_get_save_file-Leaves,
}

-- Every call on a valid context whose arguments are strings, with a terminated user agent and a
-- JSON file name of at most 128 bytes, returns, whether its allocations succeed or not, and
-- leaves every string field NULL or a terminated string.
pub apply-IsValid :
    (c : Ctx) (call : Call) → IsValid c → IsCall call → Leaves IsValid (apply c call)
unfolding apply set_path_segment set_api_context set_cacerts mark_as_request_only mark_as_get_only
    mark_as_put_after_test mark_as_cert_req mark_as_post_only mark_as_post_resources mark_as_sample
apply-IsValid c (json_filename none alloc) v a = unfold set_json_filename in keep c missing_arg v
apply-IsValid c (json_filename (some s) alloc) v a = set_json_filename-Leaves c s alloc v a.0 a.1
apply-IsValid c (server s port agent alloc) v a = set_server-Leaves c s port agent alloc v a.0 a.1
apply-IsValid c (certkey cert key x y) v a = set_certkey-Leaves c cert key x y v a.0 a.1
apply-IsValid c sample v a = (success, record c { is_sample = true }, refl, assumption)
apply-IsValid c (delete_only s alloc) v a = mark_as_delete_only-Leaves c s alloc v a
apply-IsValid c (get_save_file s alloc) v a = set_get_save_file-Leaves c s alloc v a
apply-IsValid c (path_segment s alloc) v a =
    set_field-Leaves IsValid _ _ (λ p h. assumption) (λ d h. assumption) c invalid_arg
      session_params_str_len_max c.path_segment s alloc v v.path_segment a
apply-IsValid c (api_context s alloc) v a =
    set_field-Leaves IsValid _ _ (λ p h. assumption) (λ d h. assumption) c invalid_arg
      session_params_str_len_max c.api_context s alloc v v.api_context a
apply-IsValid c (cacerts s alloc) v a =
    set_field-Leaves IsValid _ _ (λ p h. assumption) (λ d h. assumption) c missing_arg
      session_params_str_len_max c.cacerts_file s alloc v v.cacerts_file a
apply-IsValid c (request_only s alloc) v a =
    set_field-Leaves IsValid _ _ (λ p h. assumption) (λ d h. assumption) c missing_arg
      session_params_str_len_max c.vector_req_file s alloc v v.vector_req_file a
apply-IsValid c (get_only s alloc) v a =
    set_field-Leaves IsValid _ _ (λ p h. assumption) (λ d h. assumption) c missing_arg
      request_str_len_max c.get_string s alloc v v.get_string a
apply-IsValid c (put_after_test s alloc) v a =
    set_field-Leaves IsValid _ _ (λ p h. assumption) (λ d h. assumption) c missing_arg
      session_params_str_len_max c.put_filename s alloc v v.put_filename a
apply-IsValid c (cert_req s alloc) v a =
    set_field-Leaves IsValid _ _ (λ p h. assumption) (λ d h. assumption) c missing_arg
      session_params_str_len_max c.mod_cert_req_file s alloc v v.mod_cert_req_file a
apply-IsValid c (post_only s alloc) v a =
    set_field-Leaves IsValid _ _ (λ p h. assumption) (λ d h. assumption) c missing_arg
      session_params_str_len_max c.post_filename s alloc v v.post_filename a
apply-IsValid c (post_resources s alloc) v a =
    set_field-Leaves IsValid _ _ (λ p h. assumption) (λ d h. assumption) c missing_arg
      session_params_str_len_max c.post_resources_filename s alloc v v.post_resources_filename a

-- A sequence of calls whose arguments are strings, with terminated user agents and JSON file names
-- of at most 128 bytes, returns on a valid context and leaves every string field NULL or a
-- terminated string.
pub configure-IsValid :
    (c : Ctx) (calls : List Call)
    → IsValid c
    → All IsCall calls
    → (c' : Ctx) × (configure c calls ≡ some c') × IsValid c'
unfolding configure
configure-IsValid c [] v a = (c, refl, v)
configure-IsValid c (call ∷ calls) v a =
    let (r, d, e, u) = apply-IsValid c call v a.0 in
    rw (e, configure) (configure-IsValid d calls u a.1)

-- A JSON file name that is too long is refused, but where a name was set before its memory is
-- already released: the context keeps a dangling pointer, and the next name is a fault.
pub set_json_filename_dangles :
    (c : Ctx) (old : Buf) (name next : CStr) (alloc again : Bool)
    → c.vector_req ≡ true
    → c.json_filename ≡ heap old
    → json_filename_max < length name
    → (set_json_filename c (some name) alloc
        ≡ some (invalid_arg, record c { json_filename = dangling }))
      × (set_json_filename (record c { json_filename = dangling }) (some next) again ≡ none)
unfolding set_json_filename rename_json release
set_json_filename_dangles c old name next alloc again q p h =
    (ground (arith, strnlen-eq-min name (suc json_filename_max)), ground arith)
