-- ===== src/Session/Context.antt =====
-- The configuration part of AMVP_CTX (include/amvp/amvp_lcl.h), its string fields as pointers.
use libamvp.Common.{ℕ, suc, Bool, true, false, Option, none, some, ltb, ℤ, pos, replicate}
use libamvp.Result.{Result, success, malloc_fail}
use libamvp.SafeC.Errno.{CStr, Buf}
use libamvp.SafeC.Compare.{strnlen_s}
use libamvp.SafeC.Copy.{Copied, strcpy_s}

-- A pointer field: NULL, a pointer to memory that was freed, or an allocated object.
pub data Ptr : Type 0 where
  null dangling : Ptr
  heap : Buf → Ptr

pub record Ctx : Type 0 where
  pub server_name : Ptr
  pub path_segment : Ptr
  pub api_context : Ptr
  pub server_port : ℤ
  pub cacerts_file : Ptr
  pub tls_cert : Ptr
  pub tls_key : Ptr
  pub http_user_agent : Ptr
  pub json_filename : Ptr
  pub use_json : Bool
  pub is_sample : Bool
  pub vector_req_file : Ptr
  pub vector_req : Bool
  pub get : Bool
  pub get_string : Ptr
  pub post : Bool
  pub post_filename : Ptr
  pub put : Bool
  pub put_filename : Ptr
  pub delete : Bool
  pub delete_string : Ptr
  pub save_filename : Ptr
  pub mod_cert_req : Bool
  pub mod_cert_req_file : Ptr
  pub post_resources : Bool
  pub post_resources_filename : Ptr

abbrev pub session_params_str_len_max : ℕ
session_params_str_len_max = 256

abbrev pub request_str_len_max : ℕ
request_str_len_max = 128

abbrev pub json_filename_max : ℕ
json_filename_max = 128

-- What `calloc` of the whole context leaves: every pointer NULL and every flag 0.
abbrev pub empty_ctx : Ctx
empty_ctx = record {
  server_name = null;
  path_segment = null;
  api_context = null;
  server_port = pos 0;
  cacerts_file = null;
  tls_cert = null;
  tls_key = null;
  http_user_agent = null;
  json_filename = null;
  use_json = false;
  is_sample = false;
  vector_req_file = null;
  vector_req = false;
  get = false;
  get_string = null;
  post = false;
  post_filename = null;
  put = false;
  put_filename = null;
  delete = false;
  delete_string = null;
  save_filename = null;
  mod_cert_req = false;
  mod_cert_req_file = null;
  post_resources = false;
  post_resources_filename = null;
}

-- A call's result and the context after it; `none` is a fault (memory freed twice, or written
-- past its end).
abbrev pub Outcome : Type 0
Outcome = Option (Result × Ctx)

-- The object that a copy left in a fresh allocation.
abbrev pub of_copy : Copied → Option (Result × Ptr)
of_copy none = none
of_copy (some (e, none)) = some (success, null)
of_copy (some (e, some b)) = some (success, heap b)

-- `p = calloc(max + 1, 1); if (!p) return AMVP_MALLOC_FAIL; strcpy_s(p, max + 1, s);`
unfoldable pub store_string : ℕ → Bool → CStr → Option (Result × Ptr)
unfolding strcpy_s
store_string max false s = some (malloc_fail, null)
store_string max true s = of_copy (strcpy_s (some (replicate (suc max) 0)) (suc max) (some s))

-- `if (p) free(p);` and then a new string.
unfoldable pub replace_string : ℕ → Ptr → Bool → CStr → Option (Result × Ptr)
unfolding store_string
replace_string max null alloc s = store_string max alloc s
replace_string max dangling alloc s = none
replace_string max (heap b) alloc s = store_string max alloc s

-- `strnlen_s(s, max + 1) > max`
abbrev pub too_long : ℕ → CStr → Bool
too_long max s = ltb max (strnlen_s (some s) (suc max))

-- A field is assigned; what follows the copy runs only after a successful allocation.
unfoldable pub assign : Option (Result × Ptr) → (Ptr → Ctx) → (Ctx → Ctx) → Outcome
assign none set finish = none
assign (some (success, p)) set finish = some (success, finish (set p))
assign (some (r, p)) set finish = some (r, set p)
