-- ===== src/SafeC/Copy.antt =====
-- The copies and fills of safe_c_stub/src (safe_str_stub.c, safe_mem_stub.c). A destination is the
-- list of the bytes of its object. `none` as a result is a write past the end of that object; a
-- NULL pointer is `none` as an argument. `strncpy`, `memcpy`, `memset`, `memcmp` are those of the
-- C library.
use libamvp.Common.{
  ℕ, zero, suc, ◌-◌, ◌^◌, ◌/◌, ◌%◌, Bool, false, Option, none, some, List, [], ◌∷◌, ltb, leb, ◌==◌,
  if◌then◌else◌, replicate, take, length,
}
use libamvp.SafeC.Errno.{
  Errno, eok, esnullp, eszerol, eslemax, esovrlp, esnospc, rsize_max_str, CStr, Buf,
}
use libamvp.SafeC.Compare.{strnlen}

-- RSIZE_MAX_MEM of safe_mem_lib.h, where size_t has 64 bits.
abbrev pub rsize_max_mem : ℕ
rsize_max_mem = (2 ^ 64 - 1) / 2

-- The bytes written from the start of an object; `none` where they do not fit.
unfoldable pub overwrite : Buf → List ℕ → Option Buf
overwrite b [] = some b
overwrite [] (x ∷ xs) = none
overwrite (d ∷ b) (x ∷ xs) = elim (overwrite b xs) [ none ↦ none | some r ↦ some (x ∷ r) ]

-- strncpy: `n` bytes of the string, padded by zeros.
unfoldable pub padded : CStr → ℕ → List ℕ
padded s zero = []
padded [] (suc n) = 0 ∷ padded [] n
padded (c ∷ s) (suc n) = c ∷ padded s n

-- What a call returns, and what it leaves in the destination.
abbrev pub Copied : Type 0
Copied = Option (Errno × Option Buf)

abbrev pub failed : Errno → Option Buf → Copied
failed e dest = some (e, dest)

abbrev pub written : Errno → Option Buf → Copied
written e none = none
written e (some b) = some (e, some b)

unfoldable pub strcpy_s : Option Buf → ℕ → Option CStr → Copied
unfolding overwrite padded
strcpy_s dest dmax none = failed esnullp dest
strcpy_s none dmax (some src) = failed esnullp none
strcpy_s (some dest) dmax (some src) =
    if dmax == 0
    then failed eszerol (some dest)
    else (if leb dmax (strnlen src dmax)
        then failed esnospc (some dest)
        else written eok (overwrite dest (padded src dmax)))

-- The loop of `strncpy_s`. `gap` is the distance of two pointers into one object, the bytes until
-- one of them meets the start of the other (`none` for two objects); up to there no byte that is
-- read was written by the loop, in both branches of the source. The last result says whether the
-- source was left before its end, where the caller empties the destination.
abbrev pub Progress : Type 0
Progress = Option (Errno × Buf)

abbrev pub cons_progress : ℕ → Progress → Progress
cons_progress c none = none
cons_progress c (some (e, b)) = some (e, c ∷ b)

abbrev pub closer : Option ℕ → Option ℕ
closer none = none
closer (some g) = some (g - 1)

abbrev pub met : Option ℕ → Bool
met none = false
met (some g) = g == 0

unfoldable pub strncpy_loop : ℕ → ℕ → Option ℕ → Buf → CStr → Progress
strncpy_loop zero slen gap dest src = some (esnospc, dest)
strncpy_loop (suc dmax) slen gap [] src = if met gap then some (esovrlp, []) else none
strncpy_loop (suc dmax) zero gap (d ∷ dest) src =
    if met gap then some (esovrlp, d ∷ dest) else some (eok, 0 ∷ dest)
strncpy_loop (suc dmax) (suc slen) gap (d ∷ dest) [] =
    if met gap then some (esovrlp, d ∷ dest) else some (eok, 0 ∷ dest)
strncpy_loop (suc dmax) (suc slen) gap (d ∷ dest) (c ∷ src) =
    let rest = strncpy_loop dmax slen (closer gap) dest src in
    if met gap then some (esovrlp, d ∷ dest) else cons_progress c rest

-- `*orig_dest = '\0'`
unfoldable pub empty_at : Buf → Option Buf
empty_at [] = none
empty_at (d ∷ b) = some (0 ∷ b)

unfoldable pub finish_copy : Progress → Copied
unfolding empty_at
finish_copy none = none
finish_copy (some (eok, b)) = some (eok, some b)
finish_copy (some (e, b)) = written e (empty_at b)

unfoldable pub copy_into : ℕ → ℕ → Option ℕ → CStr → Option Buf → Copied
unfolding strncpy_loop finish_copy
copy_into dmax slen gap src none = none
copy_into dmax slen gap src (some dest) = finish_copy (strncpy_loop dmax slen gap dest src)

unfoldable pub nul_or_copy : ℕ → ℕ → Option ℕ → Option CStr → Buf → Copied
unfolding copy_into
nul_or_copy dmax slen gap none dest = written esnullp (empty_at dest)
nul_or_copy dmax slen gap (some src) dest =
    copy_into dmax slen gap src (if ltb rsize_max_str slen then empty_at dest else some dest)

-- With `slen` past the maximum the source empties the destination and goes on.
unfoldable pub strncpy_s : Option Buf → ℕ → Option CStr → ℕ → Option ℕ → Copied
unfolding nul_or_copy
strncpy_s none dmax src slen gap = failed esnullp none
strncpy_s (some dest) dmax src slen gap =
    if dmax == 0
    then failed eszerol (some dest)
    else (if ltb rsize_max_str dmax
        then failed eslemax (some dest)
        else nul_or_copy dmax slen gap src dest)

unfoldable pub memzero_s : Option Buf → ℕ → Copied
unfolding overwrite
memzero_s none dmax = failed esnullp none
memzero_s (some dest) dmax = written eok (overwrite dest (replicate dmax 0))

-- A source object shorter than `slen` is read past its end.
abbrev pub read_bytes : Buf → ℕ → Option (List ℕ)
read_bytes src n = if leb n (length src) then some (take n src) else none

unfoldable pub move_bytes : Buf → Option (List ℕ) → Copied
unfolding overwrite
move_bytes dest none = none
move_bytes dest (some bytes) = written eok (overwrite dest bytes)

unfoldable pub memcpy_s : Option Buf → ℕ → Option Buf → ℕ → Copied
unfolding move_bytes
memcpy_s dest dmax none slen = failed esnullp dest
memcpy_s none dmax (some src) slen = failed esnullp none
memcpy_s (some dest) dmax (some src) slen =
    if ltb dmax slen then failed eslemax (some dest) else move_bytes dest (read_bytes src slen)

-- The copy of `memmove_s`; a NULL source clears the destination.
unfoldable pub copy_or_clear : Buf → ℕ → ℕ → Option Buf → Copied
unfolding move_bytes
copy_or_clear dest dmax smax none = written esnullp (overwrite dest (replicate dmax 0))
copy_or_clear dest dmax smax (some s) = move_bytes dest (read_bytes s smax)

unfoldable pub memmove_s : Option Buf → ℕ → Option Buf → ℕ → Copied
unfolding copy_or_clear
memmove_s none dmax src smax = failed esnullp none
memmove_s (some dest) dmax src smax =
    if dmax == 0
    then failed eszerol (some dest)
    else (if ltb rsize_max_mem dmax
        then failed eslemax (some dest)
        else (if smax == 0
            then written eszerol (overwrite dest (replicate dmax 0))
            else (if ltb dmax smax
                then written eslemax (overwrite dest (replicate dmax 0))
                else copy_or_clear dest dmax smax src)))

-- `c` is converted to a byte.
unfoldable pub memset_s : Option Buf → ℕ → ℕ → ℕ → Copied
unfolding overwrite
memset_s none smax c n = failed esnullp none
memset_s (some s) smax c n =
    let all = replicate smax (c % 256) in
    if ltb rsize_max_mem smax
    then failed eslemax (some s)
    else (if ltb rsize_max_mem n
        then written eslemax (overwrite s all)
        else (if ltb smax n
            then written eslemax (overwrite s all)
            else written eok (overwrite s (replicate n (c % 256)))))
