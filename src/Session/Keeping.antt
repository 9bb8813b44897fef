-- ===== src/Session/Keeping.antt =====
-- A string field set from an argument stays valid; the JSON file name (src/amvp.c).
use libamvp.Common.{
  ℕ, suc, ◌≤◌, ◌<◌, ◌≡◌, refl, Bool, true, false, not, Option, none, some, arith, inl, inr,
  Bool-cases, if◌then◌else◌, length,
}
use libamvp.Result.{Result, success, malloc_fail, invalid_arg, unsupported_op}
use libamvp.SafeC.Errno.{CStr, NoNul, Buf, until_nul}
use libamvp.SafeC.Compare.{strnlen_s}
use libamvp.Session.Context.{
  Ptr, null, dangling, heap, Ctx, Outcome, too_long, assign, json_filename_max,
}
use libamvp.Session.Setters.{set_field, release, rename_json, set_json_filename}
use libamvp.SafeC.Copying.{strnlen-eq-min}
use libamvp.Session.Calls.{
  Call, json_filename, server, path_segment, api_context, cacerts, certkey, sample, request_only,
  get_only, put_after_test, cert_req, post_only, post_resources, delete_only, get_save_file,
}
use libamvp.Session.Strings.{
  IsString, IsValid, Leaves, Stored, store_string-Stored, replace_string-Stored, too_long_le,
}

-- A string argument, NULL or without a terminator in it.
abbrev pub IsArg : Option CStr → Type 0
IsArg none = Unit
IsArg (some s) = NoNul s

module _ (P : Ctx → Type 0) (set : Ptr → Ctx) (finish : Ctx → Ctx)
    (sets : (p : Ptr) → IsString p → P (set p)) (finishes : (d : Ctx) → P d → P (finish d)) where
  pub assign-Leaves :
      (s : CStr) (alloc : Bool) (o : Option (Result × Ptr))
      → Stored s alloc o
      → Leaves P (assign o set finish)
  unfolding assign
  assign-Leaves s true o (p, e, v, w) =
      rw e (success, finish (set p), refl, finishes (set p) (sets p v))
  assign-Leaves s false o (p, e, v, w) = rw e (malloc_fail, set p, refl, sets p v)

  pub set_field-Leaves :
      (c : Ctx) (missing : Result) (max : ℕ) (p : Ptr) (s : Option CStr) (alloc : Bool)
      → P c
      → IsString p
      → IsArg s
      → Leaves P (set_field c missing max p set finish s alloc)
  unfolding set_field
  set_field-Leaves c missing max p none alloc v q a = (missing, c, refl, v)
  set_field-Leaves c missing max p (some s) alloc v q a = elim (Bool-cases (too_long max s)) [
    | inl long ↦ rw long (invalid_arg, c, refl, v)
    | inr fits ↦
        rw fits (
          assign-Leaves s alloc _
            (replace_string-Stored max p alloc s q a (too_long_le max s fits)))
  ]

pub keep : (c : Ctx) (r : Result) → IsValid c → Leaves IsValid (some (r, c))
keep c r v = (r, c, refl, v)

-- A user agent, where one was made, is terminated.
abbrev pub IsAgent : Option Buf → Type 0
IsAgent none = Unit
IsAgent (some b) = length (until_nul b) < length b

-- The arguments of a call: strings, a terminated user agent, and a JSON file name within its limit.
abbrev pub IsCall : Call → Type 0
IsCall (json_filename (some s) alloc) = NoNul s × (length s ≤ json_filename_max)
IsCall (server s port agent alloc) = IsArg s × IsAgent agent
IsCall (certkey cert key a b) = IsArg cert × IsArg key
IsCall (json_filename none alloc) = Unit
IsCall sample = Unit
IsCall (path_segment s alloc) = IsArg s
IsCall (api_context s alloc) = IsArg s
IsCall (cacerts s alloc) = IsArg s
IsCall (request_only s alloc) = IsArg s
IsCall (get_only s alloc) = IsArg s
IsCall (put_after_test s alloc) = IsArg s
IsCall (cert_req s alloc) = IsArg s
IsCall (post_only s alloc) = IsArg s
IsCall (post_resources s alloc) = IsArg s
IsCall (delete_only s alloc) = IsArg s
IsCall (get_save_file s alloc) = IsArg s

too_long-false : (max : ℕ) (s : CStr) → length s ≤ max → too_long max s ≡ false
unfolding strnlen_s
too_long-false max s h = ground (arith, strnlen-eq-min s (suc max))

pub if-Leaves :
    (b : Bool) (x y : Outcome)
    → (b ≡ true → Leaves IsValid x)
    → (b ≡ false → Leaves IsValid y)
    → Leaves IsValid (if b then x else y)
if-Leaves true x y p q = p refl
if-Leaves false x y p q = q refl

renames :
    (c : Ctx) (s : CStr) (alloc : Bool) (p : Ptr)
    → IsValid c
    → NoNul s
    → length s ≤ json_filename_max
    → Leaves IsValid (rename_json c s alloc (some p))
unfolding rename_json
renames c s alloc p v nn h = rw (too_long-false json_filename_max s h) (
    assign-Leaves IsValid _ _ (λ q k. assumption) (λ d k. assumption) s alloc _
      (store_string-Stored json_filename_max alloc s nn h))

renames_released :
    (c : Ctx) (s : CStr) (alloc : Bool) (p : Ptr)
    → IsValid c
    → IsString p
    → NoNul s
    → length s ≤ json_filename_max
    → Leaves IsValid (rename_json c s alloc (release p))
unfolding release
renames_released c s alloc null v q nn h = renames c s alloc null v nn h
renames_released c s alloc dangling v q nn h = absurd q
renames_released c s alloc (heap b) v q nn h = renames c s alloc dangling v nn h

pub set_json_filename-Leaves :
    (c : Ctx) (s : CStr) (alloc : Bool)
    → IsValid c
    → NoNul s
    → length s ≤ json_filename_max
    → Leaves IsValid (set_json_filename c (some s) alloc)
unfolding set_json_filename
set_json_filename-Leaves c s alloc v nn h =
    if-Leaves (not c.vector_req) _ _ (λ off. keep c unsupported_op v)
      (λ on. renames_released c s alloc c.json_filename v v.json_filename nn h)
