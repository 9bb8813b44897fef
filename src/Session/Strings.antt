-- ===== src/Session/Strings.antt =====
-- The string fields of the context: each setter returns, and leaves every field NULL or a
-- terminated string.
use libamvp.Common.{
  ℕ, suc, ◌≤◌, ◌<◌, ◌≡◌, refl, Bool, true, false, Option, none, some, arith, ap, replicate, length,
  length-replicate,
}
use libamvp.Result.{Result, success, malloc_fail}
use libamvp.SafeC.Errno.{CStr, NoNul, until_nul}
use libamvp.SafeC.Compare.{strnlen_s}
use libamvp.SafeC.Copying.{strnlen-eq-min, strcpy_s_copies}
use libamvp.Session.Context.{
  Ptr, null, dangling, heap, Ctx, Outcome, store_string, replace_string, too_long,
}

-- NULL, or an object that holds a terminated string.
abbrev pub IsString : Ptr → Type 0
IsString null = Unit
IsString dangling = ⊥
IsString (heap b) = length (until_nul b) < length b

pub record IsValid (c : Ctx) : Type 0 where
  pub server_name : IsString c.server_name
  pub path_segment : IsString c.path_segment
  pub api_context : IsString c.api_context
  pub cacerts_file : IsString c.cacerts_file
  pub tls_cert : IsString c.tls_cert
  pub tls_key : IsString c.tls_key
  pub http_user_agent : IsString c.http_user_agent
  pub json_filename : IsString c.json_filename
  pub vector_req_file : IsString c.vector_req_file
  pub get_string : IsString c.get_string
  pub post_filename : IsString c.post_filename
  pub put_filename : IsString c.put_filename
  pub delete_string : IsString c.delete_string
  pub save_filename : IsString c.save_filename
  pub mod_cert_req_file : IsString c.mod_cert_req_file
  pub post_resources_filename : IsString c.post_resources_filename

-- The call returned, and the context satisfies P.
abbrev pub Leaves : (Ctx → Type 0) → Outcome → Type 0
Leaves P o = (r : Result) × (c : Ctx) × (o ≡ some (r, c)) × P c

-- The string that a pointer stands for.
abbrev pub contents : Ptr → Option CStr
contents (heap b) = some (until_nul b)
contents _ = none

-- A string that is short enough is stored whole.
abbrev pub Stored : CStr → Bool → Option (Result × Ptr) → Type 0
Stored s true o = (p : Ptr) × (o ≡ some (success, p)) × IsString p × (contents p ≡ some s)
Stored s false o = (p : Ptr) × (o ≡ some (malloc_fail, p)) × IsString p × (contents p ≡ none)

pub store_string-Stored :
    (max : ℕ) (alloc : Bool) (s : CStr)
    → NoNul s
    → length s ≤ max
    → Stored s alloc (store_string max alloc s)
unfolding store_string
store_string-Stored max false s nn h = (null, refl, tt, refl)
store_string-Stored max true s nn h =
    let (b, e, v, w) =
      strcpy_s_copies (replicate (suc max) 0) s (suc max) nn
        (omega (arith, length-replicate {A = ℕ} max 0)) (omega arith) in
    (heap b, rw e, omega (arith, ap length v, w.same_length, length-replicate {A = ℕ} max 0), rw v)

pub too_long_le : (max : ℕ) (s : CStr) → too_long max s ≡ false → length s ≤ max
unfolding strnlen_s
too_long_le max s h = ground (arith, strnlen-eq-min s (suc max))

pub replace_string-Stored :
    (max : ℕ) (p : Ptr) (alloc : Bool) (s : CStr)
    → IsString p
    → NoNul s
    → length s ≤ max
    → Stored s alloc (replace_string max p alloc s)
unfolding replace_string
replace_string-Stored max null alloc s v nn h = store_string-Stored max alloc s nn h
replace_string-Stored max dangling alloc s v nn h = absurd v
replace_string-Stored max (heap b) alloc s v nn h = store_string-Stored max alloc s nn h
