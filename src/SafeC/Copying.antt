-- ===== src/SafeC/Copying.antt =====
-- What the copies of safe_str_stub.c and safe_mem_stub.c leave in the destination.
use libamvp.Common.{
  ℕ, zero, suc, ◌≤◌, ◌<◌, ◌≡◌, refl, Option, none, some, List, [], ◌∷◌, ◌++◌, arith, min, ap,
  length, take, drop, inl, inr, Bool-cases,
}
use libamvp.SafeC.Errno.{Errno, eok, esovrlp, esnospc, CStr, NoNul, Buf, until_nul}
use libamvp.SafeC.Compare.{strnlen}
use libamvp.SafeC.Copy.{
  overwrite, padded, strcpy_s, strncpy_loop, Progress, cons_progress, met, closer,
}

pub strnlen-eq-min : (s : CStr) (n : ℕ) → strnlen s n ≡ min n (length s)
unfolding strnlen
strnlen-eq-min s zero = omega arith
strnlen-eq-min [] (suc n) = omega arith
strnlen-eq-min (c ∷ s) (suc n) = omega (arith, strnlen-eq-min s n)

pub overwrite_fits :
    (b : Buf) (xs : List ℕ)
    → length xs ≤ length b
    → overwrite b xs ≡ some (xs ++ drop (length xs) b)
unfolding overwrite
overwrite_fits b [] h = refl
overwrite_fits [] (x ∷ xs) h = absurd (omega arith)
overwrite_fits (d ∷ b) (x ∷ xs) h = rw (overwrite_fits b xs (omega arith))

pub length-padded : (s : CStr) (n : ℕ) → length (padded s n) ≡ n
unfolding padded
length-padded s zero = refl
length-padded [] (suc n) = ap suc (length-padded [] n)
length-padded (c ∷ s) (suc n) = ap suc (length-padded s n)

-- A string that is shorter than the count is there with its terminator.
until_nul-padded :
    (s : CStr) (n : ℕ) (rest : Buf) → NoNul s → length s < n → until_nul (padded s n ++ rest) ≡ s
unfolding padded
until_nul-padded s zero rest nn h = absurd (omega arith)
until_nul-padded [] (suc n) rest nn h = refl
until_nul-padded (zero ∷ s) (suc n) rest nn h = absurd (omega arith)
until_nul-padded (suc c ∷ s) (suc n) rest nn h = rw (until_nul-padded s n rest nn.1 (omega arith))

drop-append : (xs b : List ℕ) (n : ℕ) → length xs ≡ n → drop n (xs ++ b) ≡ b
drop-append [] b zero h = refl
drop-append [] b (suc n) h = absurd (omega arith)
drop-append (x ∷ xs) b zero h = absurd (omega arith)
drop-append (x ∷ xs) b (suc n) h = drop-append xs b n (omega arith)

length-overwritten :
    (b : Buf) (xs : List ℕ) → length xs ≤ length b → length (xs ++ drop (length xs) b) ≡ length b
length-overwritten b [] h = refl
length-overwritten [] (x ∷ xs) h = absurd (omega arith)
length-overwritten (d ∷ b) (x ∷ xs) h = ap suc (length-overwritten b xs (omega arith))

drop-overwritten :
    (b : Buf) (xs : List ℕ) (n : ℕ)
    → length xs ≤ n
    → length xs ≤ length b
    → drop n (xs ++ drop (length xs) b) ≡ drop n b
drop-overwritten b [] n h k = refl
drop-overwritten [] (x ∷ xs) n h k = absurd (omega arith)
drop-overwritten (d ∷ b) (x ∷ xs) zero h k = absurd (omega arith)
drop-overwritten (d ∷ b) (x ∷ xs) (suc n) h k = drop-overwritten b xs n (omega arith) (omega arith)

-- The object keeps its length, and its bytes from the limit on.
pub record IsWithin (dmax : ℕ) (before after : Buf) : Type 0 where
  pub same_length : length after ≡ length before
  pub same_tail : drop dmax after ≡ drop dmax before

pub IsWithin-refl : (dmax : ℕ) (b : Buf) → IsWithin dmax b b
IsWithin-refl dmax b = record { same_length = refl; same_tail = refl }

pub overwritten-IsWithin :
    (dmax : ℕ) (b : Buf) (xs : List ℕ)
    → length xs ≤ dmax
    → dmax ≤ length b
    → IsWithin dmax b (xs ++ drop (length xs) b)
overwritten-IsWithin dmax b xs p q = record {
  same_length = length-overwritten b xs (omega arith);
  same_tail = drop-overwritten b xs dmax p (omega arith);
}

-- `strcpy_s` with a limit not past the size of the object copies a string that is shorter than
-- the limit, with its terminator; the object keeps its size and its bytes from the limit on.
pub strcpy_s_copies :
    (dest : Buf) (src : CStr) (dmax : ℕ)
    → NoNul src
    → dmax ≤ length dest
    → length src < dmax
    → (b : Buf) × (strcpy_s (some dest) dmax (some src) ≡ some (eok, some b))
      × (until_nul b ≡ src)
      × IsWithin dmax dest b
unfolding strcpy_s
strcpy_s_copies dest src dmax nn q h = (
  padded src dmax ++ drop (length (padded src dmax)) dest,
  ground (
    arith,
    strnlen-eq-min src dmax,
    length-padded src dmax,
    overwrite_fits dest (padded src dmax),
  ),
  until_nul-padded src dmax _ nn h,
  overwritten-IsWithin dmax dest (padded src dmax) (omega (arith, length-padded src dmax))
      (omega (arith, length-padded src dmax)),
)

-- A string that does not fit below the limit changes nothing.
pub strcpy_s_no_space :
    (dest : Buf) (src : CStr) (dmax : ℕ)
    → 0 < dmax
    → dmax ≤ length src
    → strcpy_s (some dest) dmax (some src) ≡ some (esnospc, some dest)
unfolding strcpy_s
strcpy_s_no_space dest src dmax p h = ground (arith, strnlen-eq-min src dmax)

-- The loop of `strncpy_s` writes at most `dmax` bytes, whatever the pointers and counts are.
abbrev pub Ran : ℕ → Buf → Progress → Type 0
Ran dmax dest r = (e : Errno) × (b : Buf) × (r ≡ some (e, b)) × IsWithin dmax dest b

cons-Ran :
    (k c d : ℕ) (dest : Buf) (r : Progress)
    → Ran k dest r
    → Ran (suc k) (d ∷ dest) (cons_progress c r)
cons-Ran k c d dest r (e, b, p, w) =
    (e, c ∷ b, rw p, record { same_length = ap suc w.same_length; same_tail = w.same_tail })

pub strncpy_loop-Ran :
    (dmax slen : ℕ) (gap : Option ℕ) (dest : Buf) (src : CStr)
    → dmax ≤ length dest
    → Ran dmax dest (strncpy_loop dmax slen gap dest src)
unfolding strncpy_loop
strncpy_loop-Ran zero slen gap dest src h = (esnospc, dest, refl, IsWithin-refl zero dest)
strncpy_loop-Ran (suc k) slen gap [] src h = absurd (omega arith)
strncpy_loop-Ran (suc k) zero gap (d ∷ dest) src h = elim (Bool-cases (met gap)) [
  | inl m ↦ (esovrlp, d ∷ dest, rw m, IsWithin-refl _ _)
  | inr m ↦ (eok, 0 ∷ dest, rw m, record { same_length = refl; same_tail = refl })
]
strncpy_loop-Ran (suc k) (suc slen) gap (d ∷ dest) [] h = elim (Bool-cases (met gap)) [
  | inl m ↦ (esovrlp, d ∷ dest, rw m, IsWithin-refl _ _)
  | inr m ↦ (eok, 0 ∷ dest, rw m, record { same_length = refl; same_tail = refl })
]
strncpy_loop-Ran (suc k) (suc slen) gap (d ∷ dest) (c ∷ src) h = elim (Bool-cases (met gap)) [
  | inl m ↦ rw m (esovrlp, d ∷ dest, refl, IsWithin-refl _ _)
  | inr m ↦
      rw m (cons-Ran k c d dest _ (strncpy_loop-Ran k slen (closer gap) dest src (omega arith)))
]

-- Between two objects the loop stops well where the string or the count ends before the limit.
pub strncpy_loop_copies :
    (dmax slen : ℕ) (dest : Buf) (src : CStr)
    → NoNul src
    → dmax ≤ length dest
    → min slen (length src) < dmax
    → (b : Buf) × (strncpy_loop dmax slen none dest src ≡ some (eok, b))
      × (until_nul b ≡ take slen src)
      × (length b ≡ length dest)
unfolding strncpy_loop
strncpy_loop_copies zero slen dest src nn h k = absurd (omega arith)
strncpy_loop_copies (suc n) slen [] src nn h k = absurd (omega arith)
strncpy_loop_copies (suc n) zero (d ∷ dest) src nn h k = (0 ∷ dest, refl, refl, refl)
strncpy_loop_copies (suc n) (suc slen) (d ∷ dest) [] nn h k = (0 ∷ dest, refl, refl, refl)
strncpy_loop_copies (suc n) (suc slen) (d ∷ dest) (zero ∷ src) nn h k = absurd (omega arith)
strncpy_loop_copies (suc n) (suc slen) (d ∷ dest) (suc c ∷ src) nn h k =
    let (b, p, q, l) = strncpy_loop_copies n slen dest src nn.1 (omega arith) (omega arith) in
    (suc c ∷ b, rw p, rw q, ap suc l)

pub strncpy_loop_short :
    (dmax slen : ℕ) (dest : Buf) (src : CStr)
    → dmax ≤ length dest
    → dmax ≤ min slen (length src)
    → (b : Buf) × (strncpy_loop dmax slen none dest src ≡ some (esnospc, b))
      × (length b ≡ length dest)
unfolding strncpy_loop
strncpy_loop_short zero slen dest src h k = (dest, refl, refl)
strncpy_loop_short (suc n) slen [] src h k = absurd (omega arith)
strncpy_loop_short (suc n) zero (d ∷ dest) src h k = absurd (omega arith)
strncpy_loop_short (suc n) (suc slen) (d ∷ dest) [] h k = absurd (omega arith)
strncpy_loop_short (suc n) (suc slen) (d ∷ dest) (c ∷ src) h k =
    let (b, p, l) = strncpy_loop_short n slen dest src (omega arith) (omega arith) in
    (c ∷ b, rw p, ap suc l)
