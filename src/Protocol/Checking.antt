-- ===== src/Protocol/Checking.antt =====
-- What amvp_check_for_protocol_error finds.
use libamvp.Common.{
  ℕ, ◌<◌, ◌≡◌, ◌↔◌, inl, inr, refl, true, some, List, [], ◌∷◌, ℤ, pos, negsuc, arith, Any,
  Bool-cases,
}
use libamvp.Protocol.Errors.{
  category_number, ErrorEntry, ProtocolError, same_int, code_among, check_for_protocol_error,
}

same_int-true : (a b : ℤ) → same_int a b ≡ true → a ≡ b
same_int-true (pos m) (pos n) h = ground arith
same_int-true (negsuc m) (negsuc n) h = ground arith
same_int-true (pos m) (negsuc n) h = ground arith
same_int-true (negsuc m) (pos n) h = ground arith

pub same_int_refl : (a : ℤ) → same_int a a ≡ true
same_int_refl (pos n) = ground arith
same_int_refl (negsuc n) = ground arith

-- Some error of the list has the code.
abbrev pub HasCode : ℤ → List ErrorEntry → Type 0
HasCode code = Any (λ e. e.code ≡ code)

code_among-HasCode : (code : ℤ) (es : List ErrorEntry) → code_among code es ≡ true → HasCode code es
unfolding code_among
code_among-HasCode code [] h = ground arith
code_among-HasCode code (e ∷ es) h = elim (Bool-cases (same_int e.code code)) [
  | inl same ↦ inl (same_int-true e.code code same)
  | inr other ↦ inr (code_among-HasCode code es (ground arith))
]

HasCode-code_among : (code : ℤ) (es : List ErrorEntry) → HasCode code es → code_among code es ≡ true
unfolding code_among
HasCode-code_among code [] h = elim h [ ]
HasCode-code_among code (e ∷ es) (inl same) = rw (same, same_int_refl code) refl
HasCode-code_among code (e ∷ es) (inr later) = ground (arith, HasCode-code_among code es later)

-- For an error and a category that is not negative, the answer is 1 exactly when the category is
-- one of the protocol's five and the error's own, and some error of its list has the code.
pub check_for_protocol_error_decides :
    (err : ProtocolError) (n : ℕ) (code : ℤ)
    → (check_for_protocol_error (some err) (pos n) code ≡ pos 1)
      ↔ ((n < 5) × (category_number err.category ≡ n) × HasCode code err.errors)
unfolding check_for_protocol_error
check_for_protocol_error_decides err n code =
    let to = code_among-HasCode code err.errors in
    let from = HasCode-code_among code err.errors in
    (
      λ h. (ground arith, ground arith, to (ground arith)),
      λ (below, same, found). ground (arith, below, same, from found),
    )
