-- ===== src/Env/Copies.antt =====
-- What copy_oe_string leaves in a field, and the copy of a URL.
use libamvp.Common.{
  ℕ, ◌+◌, ◌≡◌, ◌≤◌, length-replicate, replicate, refl, some, leb, if◌then◌else◌, length, arith, inl,
  inr, Bool-cases,
}
use libamvp.Result.{success, invalid_arg}
use libamvp.SafeC.Errno.{CStr, NoNul}
use libamvp.SafeC.Compare.{strnlen_s}
use libamvp.SafeC.Copying.{strnlen-eq-min, strcpy_s_copies}
use libamvp.Util.StringList.{string_fits}
use libamvp.Util.Appending.{kv_word}
use libamvp.Env.Pages.{copied_url, attr_url_max}
use libamvp.Env.Types.{Field}
use libamvp.Env.Tables.{copy_oe_string}

string_fits-leb : (s : CStr) (n : ℕ) → string_fits s n ≡ leb (length s) n
unfolding string_fits strnlen_s
string_fits-leb s n = ground (arith, strnlen-eq-min s (n + 1))

pub copy_oe_string_lem :
    (dest : Field) (s : CStr)
    → NoNul s
    → copy_oe_string dest (some s)
      ≡ (if leb (length s) 256 then (success, some s) else (invalid_arg, dest))
unfolding copy_oe_string
copy_oe_string_lem dest s nn = elim (Bool-cases (leb (length s) 256)) [
  | inl fits ↦ rw (string_fits-leb s 256, fits, kv_word s nn (ground arith)) refl
  | inr long ↦ rw (string_fits-leb s 256, long) refl
]

-- A URL that fits is copied whole.
pub copied_url_lem : (s : CStr) → NoNul s → length s ≤ attr_url_max → copied_url s ≡ some s
unfolding copied_url
copied_url_lem s nn h =
    let (b, e, v, within) =
      strcpy_s_copies (replicate (attr_url_max + 1) 0) s (attr_url_max + 1) nn
        (omega (arith, length-replicate {A = ℕ} (attr_url_max + 1) 0)) (omega arith) in
    rw (e, v) refl
