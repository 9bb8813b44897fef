-- ===== src/SafeC/Bounds.antt =====
-- No call of safe_c_stub/src writes past the limit that it is given, and what it reports.
use libamvp.Common.{
  Bool, true, false, ℕ, zero, suc, ◌≤◌, ◌<◌, ◌≡◌, refl, Option, none, some, [], ◌∷◌, arith, min,
  length, ◌∙◌, take, inl, inr, Bool-cases, ltb, if◌then◌else◌, ◌==◌,
}
use libamvp.SafeC.Errno.{
  Errno, eok, esnullp, eslemax, eszerol, esnospc, rsize_max_str, CStr, NoNul, Buf, until_nul,
}
use libamvp.SafeC.Copy.{
  Copied, strncpy_loop, strncpy_s, empty_at, copy_into, Progress, finish_copy, written,
}
use libamvp.SafeC.Copying.{
  IsWithin, IsWithin-refl, Ran, strncpy_loop-Ran, strncpy_loop_copies, strncpy_loop_short,
}

-- A call returned, and left its object as it was from the limit on.
abbrev pub StaysWithin : ℕ → Buf → Copied → Type 0
StaysWithin dmax dest r = (e : Errno) × (b : Buf) × (r ≡ some (e, some b)) × IsWithin dmax dest b

pub StaysWithin-refl : (e : Errno) (dmax : ℕ) (b : Buf) → StaysWithin dmax b (some (e, some b))
StaysWithin-refl e dmax b = (e, b, refl, IsWithin-refl dmax b)

empty_at-StaysWithin :
    (e : Errno) (n : ℕ) (dest b : Buf)
    → suc n ≤ length dest
    → IsWithin (suc n) dest b
    → StaysWithin (suc n) dest (written e (empty_at b))
unfolding empty_at
empty_at-StaysWithin e n dest [] h w = absurd (omega (arith, w.same_length))
empty_at-StaysWithin e n dest (c ∷ b) h w =
    (e, 0 ∷ b, refl, record { same_length = w.same_length; same_tail = w.same_tail })

finish_copy-StaysWithin :
    (n : ℕ) (dest : Buf) (r : Progress)
    → suc n ≤ length dest
    → Ran (suc n) dest r
    → StaysWithin (suc n) dest (finish_copy r)
unfolding finish_copy
finish_copy-StaysWithin n dest r h (eok, b, p, w) = rw p (eok, b, refl, w)
finish_copy-StaysWithin n dest r h (e, b, p, w) = rw p (empty_at-StaysWithin e n dest b h w)

-- Through an emptied object the bounds compose.
trans-StaysWithin :
    (dmax : ℕ) (a b : Buf) (r : Copied)
    → IsWithin dmax a b
    → StaysWithin dmax b r
    → StaysWithin dmax a r
trans-StaysWithin dmax a b r w (e, c, p, v) = (
  e,
  c,
  p,
  record { same_length = v.same_length ∙ w.same_length; same_tail = v.same_tail ∙ w.same_tail },
)

-- The two guards on the limit.
guards-StaysWithin :
    (dmax : ℕ) (dest : Buf) (r : Copied)
    → StaysWithin dmax dest r
    → StaysWithin dmax dest (
        if dmax == 0
        then some (eszerol, some dest)
        else (if ltb rsize_max_str dmax then some (eslemax, some dest) else r))
guards-StaysWithin dmax dest r h = elim (Bool-cases (dmax == 0)) [
  | inl z ↦ rw z (StaysWithin-refl eszerol dmax dest)
  | inr nz ↦ rw nz (elim (Bool-cases (ltb rsize_max_str dmax)) [
    | inl big ↦ rw big (StaysWithin-refl eslemax dmax dest)
    | inr fits ↦ rw fits h
  ])
]

copy_into-StaysWithin :
    (n slen : ℕ) (gap : Option ℕ) (s : CStr) (d : ℕ) (dest : Buf) (big : Bool)
    → suc n ≤ length (d ∷ dest)
    → StaysWithin
        (suc n)
        (d ∷ dest)
        (copy_into (suc n) slen gap s (if big then empty_at (d ∷ dest) else some (d ∷ dest)))
unfolding copy_into
copy_into-StaysWithin n slen gap s d dest true q =
    trans-StaysWithin (suc n) (d ∷ dest) (0 ∷ dest) _
      (record { same_length = refl; same_tail = refl })
      (finish_copy-StaysWithin n (0 ∷ dest) _ q (strncpy_loop-Ran (suc n) slen gap (0 ∷ dest) s q))
copy_into-StaysWithin n slen gap s d dest false q =
    finish_copy-StaysWithin n (d ∷ dest) _ q (strncpy_loop-Ran (suc n) slen gap (d ∷ dest) s q)

-- Whatever the pointers, the count and the distance of the two pointers are, `strncpy_s` with a
-- limit of 1 to the size of the object returns, and writes no byte from the limit on.
pub strncpy_s_bounds :
    (dest : Buf) (dmax : ℕ) (src : Option CStr) (slen : ℕ) (gap : Option ℕ)
    → 0 < dmax
    → dmax ≤ length dest
    → StaysWithin dmax dest (strncpy_s (some dest) dmax src slen gap)
unfolding strncpy_s
strncpy_s_bounds dest zero src slen gap p q = absurd (omega arith)
strncpy_s_bounds [] (suc n) src slen gap p q = absurd (omega arith)
strncpy_s_bounds (d ∷ dest) (suc n) none slen gap p q =
    guards-StaysWithin (suc n) (d ∷ dest) (written esnullp (empty_at (d ∷ dest)))
      (empty_at-StaysWithin esnullp n (d ∷ dest) (d ∷ dest) q (IsWithin-refl _ _))
strncpy_s_bounds (d ∷ dest) (suc n) (some s) slen gap p q =
    guards-StaysWithin (suc n) (d ∷ dest) _
      (copy_into-StaysWithin n slen gap s d dest (ltb rsize_max_str slen) q)

reaches_loop :
    (dest : Buf) (dmax : ℕ) (src : CStr) (slen : ℕ)
    → 0 < dmax
    → dmax ≤ rsize_max_str
    → slen ≤ rsize_max_str
    → strncpy_s (some dest) dmax (some src) slen none
      ≡ finish_copy (strncpy_loop dmax slen none dest src)
unfolding strncpy_s
reaches_loop dest dmax src slen p q r = ground arith

emptied : (b : Buf) → 0 < length b → (b' : Buf) × (empty_at b ≡ some b') × (until_nul b' ≡ [])
unfolding empty_at
emptied [] h = absurd (omega arith)
emptied (c ∷ b) h = (0 ∷ b, refl, refl)

-- `strncpy_s` between two objects, within the limits: where the string or the count ends before
-- the limit, the destination then holds the first `slen` bytes of the string, in the same object.
pub strncpy_s_copies :
    (dest : Buf) (dmax : ℕ) (src : CStr) (slen : ℕ)
    → NoNul src
    → dmax ≤ rsize_max_str
    → slen ≤ rsize_max_str
    → dmax ≤ length dest
    → min slen (length src) < dmax
    → (b : Buf) × (strncpy_s (some dest) dmax (some src) slen none ≡ some (eok, some b))
      × (until_nul b ≡ take slen src)
      × (length b ≡ length dest)
strncpy_s_copies dest dmax src slen nn q r h k =
    let (b, e, v, l) = strncpy_loop_copies dmax slen dest src nn h k in
    (
      b,
      rw (reaches_loop dest dmax src slen (omega arith) q r, e) (unfold finish_copy in refl),
      v,
      l,
    )

-- `strncpy_s` between two objects, within the limits: where neither the string nor the count ends
-- before the limit, the call reports that there is no space and leaves an empty string.
pub strncpy_s_no_space :
    (dest : Buf) (dmax : ℕ) (src : CStr) (slen : ℕ)
    → 0 < dmax
    → dmax ≤ rsize_max_str
    → slen ≤ rsize_max_str
    → dmax ≤ length dest
    → dmax ≤ min slen (length src)
    → (b : Buf) × (strncpy_s (some dest) dmax (some src) slen none ≡ some (esnospc, some b))
      × (until_nul b ≡ [])
strncpy_s_no_space dest dmax src slen p q r h k =
    let (b, e, l) = strncpy_loop_short dmax slen dest src h k in
    let (b', e', v) = emptied b (omega arith) in
    (b', rw (reaches_loop dest dmax src slen p q r, e) (unfold finish_copy in rw e'), v)
