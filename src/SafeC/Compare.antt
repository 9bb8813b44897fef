-- ===== src/SafeC/Compare.antt =====
-- The comparisons and scans of safe_c_stub/src/safe_str_stub.c. A pointer to a string is an
-- optional list of its bytes, an output argument is passed in and returned. `strnlen`, `strcmp`,
-- `strncmp`, `toupper` and `strstr` are those of the C library; of `strcmp` and `strncmp` C fixes
-- the sign only, so their result is an `Ordering`.
use Prim.Native.Nat.{compare, Ordering}
use libamvp.Common.{
  ℕ, zero, suc, ◌+◌, ◌-◌, Bool, true, false, ◌&&◌, ◌||◌, Option, none, some, [], ◌∷◌, ltb, leb,
  ◌==◌, if◌then◌else◌, ℤ, pos, sub_ℕ,
}
use libamvp.SafeC.Errno.{
  Errno, eok, esnullp, eszerol, eslemax, esnotfnd, einval, rsize_max_str, CStr,
}

unfoldable pub strnlen : CStr → ℕ → ℕ
strnlen s zero = 0
strnlen [] (suc n) = 0
strnlen (c ∷ s) (suc n) = suc (strnlen s n)

unfoldable pub strcmp : CStr → CStr → Ordering
strcmp [] [] = Ordering.eq
strcmp [] (b ∷ t) = Ordering.lt
strcmp (a ∷ s) [] = Ordering.gt
strcmp (a ∷ s) (b ∷ t) = elim (compare a b) [
  | Ordering.eq ↦ strcmp s t
  | Ordering.lt ↦ Ordering.lt
  | Ordering.gt ↦ Ordering.gt
]

unfoldable pub strncmp : CStr → CStr → ℕ → Ordering
strncmp s t zero = Ordering.eq
strncmp [] [] (suc n) = Ordering.eq
strncmp [] (b ∷ t) (suc n) = Ordering.lt
strncmp (a ∷ s) [] (suc n) = Ordering.gt
strncmp (a ∷ s) (b ∷ t) (suc n) = elim (compare a b) [
  | Ordering.eq ↦ strncmp s t n
  | Ordering.lt ↦ Ordering.lt
  | Ordering.gt ↦ Ordering.gt
]

-- The C locale.
unfoldable pub toupper : ℕ → ℕ
toupper c = if leb b'a' c && leb c b'z' then c - 32 else c

unfoldable pub strnlen_s : Option CStr → ℕ → ℕ
strnlen_s none smax = 0
strnlen_s (some s) smax = if smax == 0 then 0 else strnlen s smax

unfoldable pub strcmp_s : Option CStr → ℕ → Option CStr → Ordering → Errno × Ordering
strcmp_s dest dmax none indicator = (esnullp, indicator)
strcmp_s none dmax (some src) indicator = (esnullp, indicator)
strcmp_s (some dest) dmax (some src) indicator =
    if dmax == 0 || ltb rsize_max_str dmax then (eszerol, indicator) else (eok, strcmp dest src)

unfoldable pub strncmp_s : Option CStr → ℕ → Option CStr → ℕ → Ordering → Errno × Ordering
strncmp_s dest dmax none smax indicator = (esnullp, indicator)
strncmp_s none dmax (some src) smax indicator = (esnullp, indicator)
strncmp_s (some dest) dmax (some src) smax indicator =
    if dmax == 0
    then (eszerol, indicator)
    else (if ltb rsize_max_str smax || ltb (strnlen dest dmax) smax || smax == 0
        then (einval, indicator)
        else (eok, strncmp dest src smax))

-- `*s`, the terminator at the end.
abbrev pub head_byte : CStr → ℕ
head_byte [] = 0
head_byte (c ∷ s) = c

unfoldable pub casecmp_loop : ℕ → CStr → CStr → ℤ
unfolding toupper
casecmp_loop zero d s = sub_ℕ (toupper (head_byte d)) (toupper (head_byte s))
casecmp_loop (suc dmax) [] s = sub_ℕ (toupper 0) (toupper (head_byte s))
casecmp_loop (suc dmax) (a ∷ d) [] = sub_ℕ (toupper a) (toupper 0)
casecmp_loop (suc dmax) (a ∷ d) (b ∷ s) = elim (toupper a == toupper b) [
  | true ↦ casecmp_loop dmax d s
  | false ↦ sub_ℕ (toupper a) (toupper b)
]

-- The fourth argument says whether `indicator` is a pointer.
unfoldable pub strcasecmp_s : Option CStr → ℕ → Option CStr → Option ℤ → Errno × Option ℤ
unfolding casecmp_loop
strcasecmp_s dest dmax src none = (esnullp, none)
strcasecmp_s none dmax src (some i) = (esnullp, some (pos 0))
strcasecmp_s (some dest) dmax none (some i) = (esnullp, some (pos 0))
strcasecmp_s (some dest) dmax (some src) (some i) =
    if dmax == 0
    then (eszerol, some (pos 0))
    else (if ltb rsize_max_str dmax
        then (eslemax, some (pos 0))
        else (eok, some (casecmp_loop dmax dest src)))

abbrev pub is_digit : ℕ → Bool
is_digit c = leb b'0' c && leb c b'9'

unfoldable pub digits_loop : CStr → Bool
digits_loop [] = true
digits_loop (c ∷ s) = if is_digit c then digits_loop s else false

-- The loop counts `dmax` down and does not test it.
unfoldable pub strisdigit_s : Option CStr → ℕ → Bool
unfolding digits_loop
strisdigit_s none dmax = false
strisdigit_s (some []) dmax = false
strisdigit_s (some (c ∷ s)) dmax =
    if dmax == 0 || ltb rsize_max_str dmax then false else digits_loop (c ∷ s)

-- The inner loop of the two spans: is `c` among the first `smax` bytes of `scan2`?
unfoldable pub scan_for : ℕ → CStr → ℕ → Bool
scan_for c [] smax = false
scan_for c (b ∷ t) zero = false
scan_for c (b ∷ t) (suc smax) = if c == b then true else scan_for c t smax

unfoldable pub cspn_loop : CStr → ℕ → CStr → ℕ → ℕ → ℕ
cspn_loop [] dmax src slen count = count
cspn_loop (c ∷ d) zero src slen count = count
cspn_loop (c ∷ d) (suc dmax) src slen count =
    let rest = cspn_loop d dmax src slen (count + 1) in if scan_for c src slen then count else rest

unfoldable pub spn_loop : CStr → ℕ → CStr → ℕ → ℕ → ℕ
spn_loop [] dmax src slen count = count
spn_loop (c ∷ d) zero src slen count = count
spn_loop (c ∷ d) (suc dmax) src slen count =
    let rest = spn_loop d dmax src slen (count + 1) in if scan_for c src slen then rest else count

-- The guards that the two spans share.
unfoldable pub span_guard : ℕ → ℕ → Errno
span_guard dmax slen =
    if dmax == 0
    then eszerol
    else (if ltb rsize_max_str dmax
        then eslemax
        else (if slen == 0 then eszerol else (if ltb rsize_max_str slen then eslemax else eok)))

abbrev pub counted : Errno → ℕ → Errno × Option ℕ
counted eok n = (eok, some n)
counted e n = (e, some 0)

-- The last argument says whether `count` is a pointer.
unfoldable pub strcspn_s : Option CStr → ℕ → Option CStr → ℕ → Bool → Errno × Option ℕ
unfolding span_guard
strcspn_s dest dmax src slen false = (esnullp, none)
strcspn_s none dmax src slen true = (esnullp, some 0)
strcspn_s (some dest) dmax none slen true = (esnullp, some 0)
strcspn_s (some dest) dmax (some src) slen true =
    counted (span_guard dmax slen) (cspn_loop dest dmax src slen 0)

unfoldable pub strspn_s : Option CStr → ℕ → Option CStr → ℕ → Bool → Errno × Option ℕ
unfolding span_guard
strspn_s dest dmax src slen false = (esnullp, none)
strspn_s none dmax src slen true = (esnullp, some 0)
strspn_s (some dest) dmax none slen true = (esnullp, some 0)
strspn_s (some dest) dmax (some src) slen true =
    counted (span_guard dmax slen) (spn_loop dest dmax src slen 0)

unfoldable pub is_prefix : CStr → CStr → Bool
is_prefix [] s = true
is_prefix (p ∷ ps) [] = false
is_prefix (p ∷ ps) (c ∷ s) = if p == c then is_prefix ps s else false

-- strstr: the part of `s` that begins with the first occurrence of `sub`.
unfoldable pub strstr : CStr → CStr → Option CStr
unfolding is_prefix
strstr [] sub = if is_prefix sub [] then some [] else none
strstr (c ∷ s) sub = let rest = strstr s sub in if is_prefix sub (c ∷ s) then some (c ∷ s) else rest

abbrev found_errno : Option CStr → Errno
found_errno none = esnotfnd
found_errno (some s) = eok

-- `dmax` and `slen` are not used.
unfoldable pub strstr_s : CStr → ℕ → CStr → ℕ → Errno × Option CStr
strstr_s dest dmax src slen = let substring = strstr dest src in (found_errno substring, substring)
