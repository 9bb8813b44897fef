-- ===== src/SafeC/Spans.antt =====
-- The spans of safe_str_stub.c against a reference: the longest prefix of a string whose bytes
-- are all (or all not) in a set.
use mathlib.Core.Bool.{not}
use libamvp.Common.{
  ℕ, zero, suc, ◌+◌, ◌≤◌, ◌<◌, ◌≡◌, refl, Bool, true, false, Option, some, List, [], ◌∷◌, arith,
  ◌==◌, if◌then◌else◌, ◌||◌, take, length,
}
use libamvp.SafeC.Errno.{Errno, eok, rsize_max_str, CStr}
use libamvp.SafeC.Compare.{scan_for, cspn_loop, spn_loop, span_guard, strcspn_s, strspn_s}

-- Is `c` a byte of the set?
abbrev pub is_member : ℕ → List ℕ → Bool
is_member c [] = false
is_member c (b ∷ t) = c == b || is_member c t

-- The longest prefix whose bytes all pass.
abbrev pub take_while : (ℕ → Bool) → List ℕ → List ℕ
take_while p [] = []
take_while p (c ∷ s) = if p c then c ∷ take_while p s else []

scan_for-eq : (c : ℕ) (src : CStr) (n : ℕ) → scan_for c src n ≡ is_member c (take n src)
unfolding scan_for
scan_for-eq c [] zero = refl
scan_for-eq c [] (suc n) = refl
scan_for-eq c (b ∷ t) zero = refl
scan_for-eq c (b ∷ t) (suc n) = ground (arith, scan_for-eq c t n)

module _ (src : CStr) (slen : ℕ) where
  spn_loop-eq :
      (d : CStr) (dmax count : ℕ)
      → spn_loop d dmax src slen count
        ≡ count + length (take_while (λ c. is_member c (take slen src)) (take dmax d))
  unfolding spn_loop
  spn_loop-eq [] zero count = omega arith
  spn_loop-eq [] (suc n) count = omega arith
  spn_loop-eq (c ∷ d) zero count = omega arith
  spn_loop-eq (c ∷ d) (suc n) count =
      ground (arith, scan_for-eq c src slen, spn_loop-eq d n (count + 1))

  cspn_loop-eq :
      (d : CStr) (dmax count : ℕ)
      → cspn_loop d dmax src slen count
        ≡ count + length (take_while (λ c. not (is_member c (take slen src))) (take dmax d))
  unfolding cspn_loop
  cspn_loop-eq [] zero count = omega arith
  cspn_loop-eq [] (suc n) count = omega arith
  cspn_loop-eq (c ∷ d) zero count = omega arith
  cspn_loop-eq (c ∷ d) (suc n) count =
      ground (arith, scan_for-eq c src slen, cspn_loop-eq d n (count + 1))

span_guard_ok :
    (dmax slen : ℕ)
    → 0 < dmax
    → dmax ≤ rsize_max_str
    → 0 < slen
    → slen ≤ rsize_max_str
    → span_guard dmax slen ≡ eok
unfolding span_guard
span_guard_ok dmax slen a b c d = ground arith

refl_from_zero : (n : ℕ) → ◌≡◌ {A = Errno × Option ℕ} (eok, some (0 + n)) (eok, some n)
refl_from_zero n = ground arith

-- Within the limits `strspn_s` counts the longest prefix of the first `dmax` bytes that lie among
-- the first `slen` bytes of `src`, and `strcspn_s` the longest prefix of those that do not.
pub spans_lem :
    (dest src : CStr) (dmax slen : ℕ)
    → 0 < dmax
    → dmax ≤ rsize_max_str
    → 0 < slen
    → slen ≤ rsize_max_str
    → (strspn_s (some dest) dmax (some src) slen true
        ≡ (eok, some (length (take_while (λ c. is_member c (take slen src)) (take dmax dest)))))
      × (strcspn_s (some dest) dmax (some src) slen true ≡ (
        eok,
        some (length (take_while (λ c. not (is_member c (take slen src))) (take dmax dest))),
      ))
unfolding strspn_s strcspn_s
spans_lem dest src dmax slen a b c d = (
  rw (span_guard_ok dmax slen a b c d, spn_loop-eq src slen dest dmax 0) (refl_from_zero _),
  rw (span_guard_ok dmax slen a b c d, cspn_loop-eq src slen dest dmax 0) (refl_from_zero _),
)
