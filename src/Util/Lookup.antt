-- ===== src/Util/Lookup.antt =====
-- When amvp_lookup_str_list finds a string.
use Prim.Native.Nat.{Ordering}
use libamvp.Common.{
  Any, ℕ, ◌≤◌, ◌<◌, ◌≡◌, ◌≢◌, refl, sym, ◌↔◌, ◌⊎◌, inl, inr, Bool, true, some, List, [], ◌∷◌, map,
  arith, take, length, min, if◌then◌else◌,
}
use libamvp.SafeC.Errno.{CStr}
use libamvp.SafeC.Compare.{strnlen_s, strncmp_s}
use libamvp.SafeC.Comparisons.{strncmp_iff}
use libamvp.SafeC.Copying.{strnlen-eq-min}
use libamvp.Util.StringList.{is_equal, min_len, diff_of, lookup_loop, lookup_str_list}

-- The two strings agree on the length of the shorter one, at most 256 bytes, which is not 0.
abbrev pub Agrees : CStr → CStr → Type 0
Agrees string s =
    (0 < min (min (length s) (length string)) 256)
    × (take (min (min (length s) (length string)) 256) s
        ≡ take (min (min (length s) (length string)) 256) string)

strnlen_s-max : (s : CStr) → strnlen_s (some s) 256 ≡ min 256 (length s)
unfolding strnlen_s
strnlen_s-max s = strnlen-eq-min s 256

min_len-eq : (s t : CStr) → min_len s t ≡ min (min (length s) (length t)) 256
min_len-eq s t = rw (strnlen_s-max s, strnlen_s-max t) (ground arith)

diff_of-Agrees :
    (s t : CStr) (m l : ℕ) (diff : Ordering)
    → diff ≢ Ordering.eq
    → m ≤ 256
    → m ≤ length s
    → l ≡ min 256 (length s)
    → ((strncmp_s (some s) l (some t) m diff).1 ≡ Ordering.eq) ↔ ((0 < m) × (take m s ≡ take m t))
unfolding strncmp_s
diff_of-Agrees s t m l diff h a b e =
    let n = strnlen-eq-min s l in
    let (to, from) = strncmp_iff s t m in ground (arith, to, from, n, h)

found_or_rest :
    {A B : Type 0} (d : Ordering) (rest : Bool)
    → ((d ≡ Ordering.eq) ↔ A)
    → (d ≢ Ordering.eq → (rest ≡ true) ↔ B)
    → ((if is_equal d then true else rest) ≡ true) ↔ (A ⊎ B)
found_or_rest Ordering.eq rest a b = (λ _. inl (a.0 refl), λ _. refl)
found_or_rest Ordering.lt rest a b =
    let ne : Ordering.lt ≢ Ordering.eq = ground arith in
    (λ h. inr ((b ne).0 h), elim [ inl x ↦ absurd (ne (a.1 x)) | inr y ↦ (b ne).1 y ])
found_or_rest Ordering.gt rest a b =
    let ne : Ordering.gt ≢ Ordering.eq = ground arith in
    (λ h. inr ((b ne).0 h), elim [ inl x ↦ absurd (ne (a.1 x)) | inr y ↦ (b ne).1 y ])

lookup_loop_lem :
    (list : List CStr) (string : CStr) (diff : Ordering)
    → diff ≢ Ordering.eq
    → (lookup_loop (map some list) string diff ≡ true) ↔ Any (Agrees string) list
unfolding lookup_loop
lookup_loop_lem [] string diff h = ground arith
lookup_loop_lem (s ∷ list) string diff h =
    let here : (diff_of s string diff ≡ Ordering.eq) ↔ Agrees string s =
      rw (sym (min_len-eq s string)) (
        diff_of-Agrees s string (min_len s string) (strnlen_s (some s) 256) diff h
          (omega (arith, min_len-eq s string)) (omega (arith, min_len-eq s string))
          (strnlen_s-max s)) in
    found_or_rest (diff_of s string diff) _ here
      (lookup_loop_lem list string (diff_of s string diff))

-- In a list without NULL strings a string is found exactly when it agrees with an entry on their
-- first bytes, as many as the shorter one of the two has but at most 256, and this number is not
-- 0. So a proper prefix of an entry is found, two strings that differ from byte 256 on only are the
-- same, and an empty string neither is found nor finds another.
pub lookup_str_list_decides :
    (list : List CStr) (string : CStr)
    → (lookup_str_list (some (map some list)) (some string) ≡ true) ↔ Any (Agrees string) list
unfolding lookup_str_list
lookup_str_list_decides list string = lookup_loop_lem list string Ordering.gt (ground arith)
