-- ===== src/SafeC/Comparisons.antt =====
-- What the comparisons of safe_str_stub.c decide.
use Prim.Native.Nat.{Ordering}
use libamvp.Common.{
  ℕ, zero, suc, ◌≤◌, ◌<◌, ◌≡◌, refl, ◌↔◌, ◌⊎◌, some, [], ◌∷◌, map, arith, take, pos, sub_ℕ, length,
  ap, ℤ,
}
use libamvp.SafeC.Errno.{eok, einval, rsize_max_str, CStr, NoNul}
use libamvp.SafeC.Compare.{
  strnlen, strcmp, strncmp, toupper, strcmp_s, strncmp_s, casecmp_loop, strcasecmp_s,
}

pub strcmp-eq : (s t : CStr) → strcmp s t ≡ Ordering.eq → s ≡ t
unfolding strcmp
strcmp-eq [] [] h = refl
strcmp-eq [] (b ∷ t) h = cc
strcmp-eq (a ∷ s) [] h = cc
strcmp-eq (a ∷ s) (b ∷ t) h = ground (arith, strcmp-eq s t)

pub strcmp_refl : (s : CStr) → strcmp s s ≡ Ordering.eq
unfolding strcmp
strcmp_refl [] = refl
strcmp_refl (a ∷ s) = ground (arith, strcmp_refl s)

pub strcmp_iff : (s t : CStr) → (strcmp s t ≡ Ordering.eq) ↔ (s ≡ t)
strcmp_iff s t = (strcmp-eq s t, λ e. rw e (strcmp_refl t))

strncmp-eq : (s t : CStr) (n : ℕ) → strncmp s t n ≡ Ordering.eq → take n s ≡ take n t
unfolding strncmp
strncmp-eq s t zero h = refl
strncmp-eq [] [] (suc n) h = refl
strncmp-eq [] (b ∷ t) (suc n) h = cc
strncmp-eq (a ∷ s) [] (suc n) h = cc
strncmp-eq (a ∷ s) (b ∷ t) (suc n) h = ground (arith, strncmp-eq s t n)

take-strncmp : (s t : CStr) (n : ℕ) → take n s ≡ take n t → strncmp s t n ≡ Ordering.eq
unfolding strncmp
take-strncmp s t zero h = refl
take-strncmp [] [] (suc n) h = refl
take-strncmp [] (b ∷ t) (suc n) h = cc
take-strncmp (a ∷ s) [] (suc n) h = cc
take-strncmp (a ∷ s) (b ∷ t) (suc n) h = ground (arith, take-strncmp s t n)

pub strncmp_iff : (s t : CStr) (n : ℕ) → (strncmp s t n ≡ Ordering.eq) ↔ (take n s ≡ take n t)
strncmp_iff s t n = (strncmp-eq s t n, take-strncmp s t n)

pub strcmp_s_ok :
    (dest src : CStr) (dmax : ℕ) (indicator : Ordering)
    → 0 < dmax
    → dmax ≤ rsize_max_str
    → strcmp_s (some dest) dmax (some src) indicator ≡ (eok, strcmp dest src)
unfolding strcmp_s
strcmp_s_ok dest src dmax indicator p q = ground arith

-- With a limit that is not 0 and not past the maximum, `strcmp_s` succeeds, and its indicator
-- says equal exactly when the whole strings are equal, whatever the limit is.
pub strcmp_s_decides :
    (dest src : CStr) (dmax : ℕ) (indicator : Ordering)
    → 0 < dmax
    → dmax ≤ rsize_max_str
    → ((strcmp_s (some dest) dmax (some src) indicator).0 ≡ eok)
      × (((strcmp_s (some dest) dmax (some src) indicator).1 ≡ Ordering.eq) ↔ (dest ≡ src))
strcmp_s_decides dest src dmax indicator p q =
    rw (strcmp_s_ok dest src dmax indicator p q) (refl, strcmp_iff dest src)

pub strncmp_s_ok :
    (dest src : CStr) (dmax smax : ℕ) (indicator : Ordering)
    → 0 < dmax
    → 0 < smax
    → smax ≤ strnlen dest dmax
    → smax ≤ rsize_max_str
    → strncmp_s (some dest) dmax (some src) smax indicator ≡ (eok, strncmp dest src smax)
unfolding strncmp_s
strncmp_s_ok dest src dmax smax indicator p a b c = ground arith

-- With a count of 0, or past the end of the first string, the indicator stays as it was.
pub strncmp_s_refuses :
    (dest src : CStr) (dmax smax : ℕ) (indicator : Ordering)
    → 0 < dmax
    → (smax ≡ 0) ⊎ (strnlen dest dmax < smax)
    → strncmp_s (some dest) dmax (some src) smax indicator ≡ (einval, indicator)
unfolding strncmp_s
strncmp_s_refuses dest src dmax smax indicator p h = ground arith

-- `strncmp_s` with a count of 1 to the length that it sees of the first string decides whether
-- the two strings agree on so many bytes.
pub strncmp_s_decides :
    (dest src : CStr) (dmax smax : ℕ) (indicator : Ordering)
    → 0 < dmax
    → 0 < smax
    → smax ≤ strnlen dest dmax
    → smax ≤ rsize_max_str
    → ((strncmp_s (some dest) dmax (some src) smax indicator).0 ≡ eok)
      × (((strncmp_s (some dest) dmax (some src) smax indicator).1 ≡ Ordering.eq)
          ↔ (take smax dest ≡ take smax src))
strncmp_s_decides dest src dmax smax indicator p a b c =
    rw (strncmp_s_ok dest src dmax smax indicator p a b c) (refl, strncmp_iff dest src smax)

sub_zero : (a b : ℕ) → sub_ℕ a b ≡ pos 0 → a ≡ b
sub_zero a b h = ground arith

zero_sub : (a b : ℕ) → a ≡ b → sub_ℕ a b ≡ pos 0
zero_sub a b h = ground arith

toupper_pos : (c : ℕ) → 0 < c → 0 < toupper c
unfolding toupper
toupper_pos c h = ground arith

toupper_zero : toupper 0 ≡ 0
unfolding toupper
toupper_zero = refl

casecmp_loop-eq :
    (dmax : ℕ) (d s : CStr)
    → length d ≤ dmax
    → NoNul d
    → NoNul s
    → casecmp_loop dmax d s ≡ pos 0
    → map toupper d ≡ map toupper s
unfolding casecmp_loop
casecmp_loop-eq zero [] [] l n m h = refl
casecmp_loop-eq zero [] (b ∷ s) l n m h =
    absurd (omega (arith, sub_zero _ _ h, toupper_pos b m.0, toupper_zero))
casecmp_loop-eq zero (a ∷ d) s l n m h = absurd (omega arith)
casecmp_loop-eq (suc k) [] [] l n m h = refl
casecmp_loop-eq (suc k) [] (b ∷ s) l n m h =
    absurd (omega (arith, sub_zero _ _ h, toupper_pos b m.0, toupper_zero))
casecmp_loop-eq (suc k) (a ∷ d) [] l n m h =
    absurd (omega (arith, sub_zero _ _ h, toupper_pos a n.0, toupper_zero))
casecmp_loop-eq (suc k) (a ∷ d) (b ∷ s) l n m h =
    ground (arith, sub_zero (toupper a) (toupper b), casecmp_loop-eq k d s)

map-toupper-casecmp :
    (dmax : ℕ) (d s : CStr) → map toupper d ≡ map toupper s → casecmp_loop dmax d s ≡ pos 0
unfolding casecmp_loop
map-toupper-casecmp zero [] [] h = ground arith
map-toupper-casecmp zero [] (b ∷ s) h = cc
map-toupper-casecmp zero (a ∷ d) [] h = cc
map-toupper-casecmp zero (a ∷ d) (b ∷ s) h = zero_sub _ _ (ground arith)
map-toupper-casecmp (suc k) [] [] h = ground arith
map-toupper-casecmp (suc k) [] (b ∷ s) h = cc
map-toupper-casecmp (suc k) (a ∷ d) [] h = cc
map-toupper-casecmp (suc k) (a ∷ d) (b ∷ s) h = ground (arith, map-toupper-casecmp k d s)

-- Within the limits, and with a limit not below the length of the first string, the indicator of
-- `strcasecmp_s` is 0 exactly when the strings are equal up to the case of letters.
pub strcasecmp_s_decides :
    (dest src : CStr) (dmax : ℕ) (i : ℤ)
    → 0 < dmax
    → dmax ≤ rsize_max_str
    → length dest ≤ dmax
    → NoNul dest
    → NoNul src
    → ((strcasecmp_s (some dest) dmax (some src) (some i)).0 ≡ eok)
      × (((strcasecmp_s (some dest) dmax (some src) (some i)).1 ≡ some (pos 0))
          ↔ (map toupper dest ≡ map toupper src))
unfolding strcasecmp_s
strcasecmp_s_decides dest src dmax i p q l n m = rw runs (
  refl,
  (
    λ h. casecmp_loop-eq dmax dest src l n m (cc),
    λ h. ap some (map-toupper-casecmp dmax dest src h),
  ),
)
  where
    runs :
        strcasecmp_s (some dest) dmax (some src) (some i) ≡ (eok, some (casecmp_loop dmax dest src))
    runs = ground arith
