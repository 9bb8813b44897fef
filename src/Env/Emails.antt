-- ===== src/Env/Emails.antt =====
-- The comparison of a list of emails, and what it means for a query of a vendor.
use libamvp.Common.{
  ℕ, zero, suc, ◌+◌, ◌<◌, ◌≡◌, ◌↔◌, refl, Bool, true, none, some, List, [], ◌∷◌, length, codes,
  is_some, arith,
}
use libamvp.SafeC.Errno.{CStr}
use libamvp.Protocol.Json.{Json}
use libamvp.Env.Types.{Vendor}
use libamvp.Env.Contacts.{count_emails, counted_emails, compare_emails}
use libamvp.Env.Query.{Server}
use libamvp.Env.Vendors.{
  checked, emails_check, vendor_entry, vendors_loop, vendors_in, vendors_page, vendors_value,
  match_vendors_page,
}
use libamvp.Env.Pages.{get_obj_from_rsp}

count_hangs :
    (fuel : ℕ) (a b c : CStr) (rest tmp : List CStr) (len : ℕ)
    → count_emails fuel (a ∷ b ∷ rest) (c ∷ tmp) len ≡ none
unfolding count_emails
count_hangs zero a b c rest tmp len = refl
count_hangs (suc fuel) a b c rest tmp len = count_hangs fuel a b b rest rest (len + 1)

module _ {Value Array Object : Type 0} (json : Json Value Array Object) where
  open json use {parse_string, get_count, get_object, get_array_of, get_string_at}

  compare_emails_hangs :
      (fuel : ℕ) (a b : CStr) (rest : List CStr) (arr : Array) (match : Bool)
      → compare_emails json fuel (a ∷ b ∷ rest) arr match ≡ none
  unfolding compare_emails counted_emails
  compare_emails_hangs fuel a b rest arr match = rw (count_hangs fuel a b a rest (b ∷ rest) 0) refl

  -- The comparison of a list of emails with an array ends, on some fuel, exactly when the list has
  -- at most one email.
  pub compare_emails_ends :
      (emails : List CStr) (arr : Array) (match : Bool)
      → ((fuel : ℕ) × (is_some (compare_emails json fuel emails arr match) ≡ true))
        ↔ (length emails < 2)
  unfolding compare_emails counted_emails count_emails
  compare_emails_ends [] arr match = (λ h. omega arith, λ h. (0, refl))
  compare_emails_ends (a ∷ []) arr match = (λ h. omega arith, λ h. (2, refl))
  compare_emails_ends (a ∷ b ∷ rest) arr match = (
    λ (fuel, h). let hangs = compare_emails_hangs fuel a b rest arr match in cc,
    λ h. absurd (omega arith),
  )

  emails_hang :
      (fuel : ℕ) (list : List CStr) (arr : Array)
      → 1 < length list
      → compare_emails json fuel list arr true ≡ none
  emails_hang fuel [] arr h = absurd (omega arith)
  emails_hang fuel (a ∷ []) arr h = absurd (omega arith)
  emails_hang fuel (a ∷ b ∷ rest) arr h = compare_emails_hangs fuel a b rest arr true

  module _ {W : Type 0} (server : Server W) where
    open server use {transport_get, curl_buf, path_segment}

    -- When a vendor has two emails or more and the first entry of the page that was received has
    -- an array of emails, then the search of the page ends on no fuel, whatever the emails are.
    pub match_vendors_page_hangs :
        (fuel : ℕ) (vendor : Vendor) (w : W) (val : Value) (obj entry : Object) (arr emails : Array)
        (n : ℕ)
        → 1 < length vendor.emails
        → parse_string (curl_buf w) ≡ some val
        → get_obj_from_rsp json val ≡ some obj
        → get_array_of obj (codes "data") ≡ some arr
        → get_count arr ≡ suc n
        → get_object arr 0 ≡ some entry
        → get_array_of entry (codes "emails") ≡ some emails
        → match_vendors_page json server fuel vendor w ≡ none
    unfolding match_vendors_page vendors_value vendors_page vendors_in vendors_loop vendor_entry
        emails_check checked
    match_vendors_page_hangs fuel vendor w val obj entry arr emails n many p o d c e m =
        rw (p, o, d, c, e, m, emails_hang fuel vendor.emails emails many) refl
