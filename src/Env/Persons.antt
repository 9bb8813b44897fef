-- ===== src/Env/Persons.antt =====
-- The contacts of a module that is found.
use mathlib.Core.Path.{subst}
use libamvp.Common.{
  ℕ, zero, suc, ◌+◌, ◌≡◌, ap, true, Option, none, some, List, [], ◌∷◌, All, if-both, if-split,
  length, replicate, codes, is_some, arith, Option-cases, inl, inr, ◌==◌, ltb, not, ◌||◌,
}
use libamvp.SafeC.Errno.{CStr}
use libamvp.Protocol.Json.{Json}
use libamvp.Env.Types.{Field, Person, Vendor, Module}
use libamvp.Env.Pages.{Page, failed, found, onwards, attr_url_max, get_obj_from_rsp, found_url}
use libamvp.Env.Vendors.{vendor_links}
use libamvp.Env.Matching.{strings_iff}
use libamvp.Env.Modules.{
  same_at, same_persons, compare_modules, read_module, read_vendor, contact_at, module_contacts,
  module_entry, modules_loop, modules_in, modules_page, modules_value, match_modules_page,
  persons_max,
}

-- What a match needs.
abbrev pub Requires : Type 0 → Page → Type 0
Requires P (found url) = P
Requires P (failed rv) = Unit
Requires P (onwards next) = Unit

found_url-Requires : (P : Type 0) → P → (url : Option CStr) → Requires P (found_url url)
found_url-Requires P h none = tt
found_url-Requires P h (some url) = h

compare_modules-persons :
    (a b : Module) (u v : Vendor)
    → compare_modules a u b v ≡ true
    → same_persons u.persons v.persons ≡ true
unfolding compare_modules
compare_modules-persons a b u v h = ground arith

-- The contacts of the vendor have one URL.
abbrev pub OneContact : Vendor → Type 0
OneContact v = (url : Field) × All (λ (p : Person). p.url ≡ url) v.persons

same_at-eq :
    (s t : Field) → is_some s ≡ true → is_some t ≡ true → same_at attr_url_max s t ≡ true → s ≡ t
same_at-eq none t h k e = cc
same_at-eq (some s) none h k e = cc
same_at-eq (some s) (some t) h k e =
    ap some ((strings_iff s t attr_url_max (omega arith) (omega arith)).0 e)

module _ {Value Array Object : Type 0} (json : Json Value Array Object) where
  open json use {
    parse_string, get_count, get_object, get_string, get_array_of, get_object_of, get_string_at,
  }

  same_persons-All :
      (ps : List Person) (n : ℕ) (url : Field)
      → same_persons ps (replicate n (contact_at json url)) ≡ true
      → All (λ (p : Person). p.url ≡ url) ps
  unfolding same_persons
  same_persons-All [] n url h = tt
  same_persons-All (p ∷ ps) zero url h = cc
  same_persons-All (p ∷ ps) (suc n) url h = (
    same_at-eq p.url url (ground arith) (ground arith) (ground arith),
    same_persons-All ps n url (ground arith),
  )

  module_contacts-Requires :
      (m : Module) (v : Vendor) (i : ℕ) (entry : Object) (given : Option Array) (next : Page)
      → Requires (OneContact v) next
      → Requires (OneContact v) (module_contacts json m v i entry given next)
  unfolding module_contacts
  module_contacts-Requires m v i entry none next more = tt
  module_contacts-Requires m v i entry (some urls) next more =
      if-both (Requires (OneContact v))
        (not (get_count urls == length v.persons) || ltb persons_max (get_count urls)) more
        (if-split (Requires (OneContact v))
          (compare_modules m v (read_module json entry) (read_vendor json entry urls i))
          (λ same.
            found_url-Requires _
              (
                get_string_at urls i,
                same_persons-All v.persons (get_count urls) (get_string_at urls i) (
                    compare_modules-persons m (read_module json entry) v
                      (read_vendor json entry urls i) same),
              )
              (get_string entry (codes "url")))
          (λ other. more))

  module_entry-Requires :
      (m : Module) (v : Vendor) (i : ℕ) (at : Option Object) (next : Page)
      → Requires (OneContact v) next
      → Requires (OneContact v) (module_entry json m v i at next)
  unfolding module_entry
  module_entry-Requires m v i none next more = tt
  module_entry-Requires m v i (some entry) next more =
      module_contacts-Requires m v i entry (get_array_of entry (codes "contactUrls")) next more

  vendor_links-Requires :
      (v : Vendor) (links : Option Object) → Requires (OneContact v) (vendor_links json links)
  unfolding vendor_links
  vendor_links-Requires v none = tt
  vendor_links-Requires v (some links) = tt

  modules_loop-Requires :
      (m : Module) (v : Vendor) (n i : ℕ) (arr : Array) (obj : Object)
      → Requires (OneContact v) (modules_loop json m v n i arr obj)
  unfolding modules_loop
  modules_loop-Requires m v zero i arr obj = vendor_links-Requires v _
  modules_loop-Requires m v (suc n) i arr obj =
      module_entry-Requires m v i _ _ (modules_loop-Requires m v n (i + 1) arr obj)

  match_modules_page-Requires :
      (m : Module) (v : Vendor) (curl_buf : Option CStr)
      → Requires (OneContact v) (match_modules_page json m v curl_buf)
  unfolding match_modules_page modules_value modules_page modules_in
  match_modules_page-Requires m v curl_buf = elim (Option-cases (parse_string curl_buf)) [
    | inl p ↦ rw p tt
    | inr (val, p) ↦ elim (Option-cases (get_obj_from_rsp json val)) [
      | inl o ↦ rw (p, o) tt
      | inr (obj, o) ↦ elim (Option-cases (get_array_of obj (codes "data"))) [
        | inl d ↦ rw (p, o, d) (vendor_links-Requires v _)
        | inr (arr, d) ↦ rw (p, o, d) (modules_loop-Requires m v (get_count arr) 0 arr obj)
      ]
    ]
  ]

  -- A page gives a match for a module only where all the contacts of its vendor have the same URL,
  -- since each of them is compared with the same string of the entry: a module whose vendor has
  -- two contacts with different URLs is not found, whatever the server has.
  pub match_modules_page_contacts :
      (m : Module) (v : Vendor) (curl_buf : Option CStr) (url : Field)
      → match_modules_page json m v curl_buf ≡ found url
      → OneContact v
  match_modules_page_contacts m v curl_buf url h =
      subst (Requires (OneContact v)) h (match_modules_page-Requires m v curl_buf)
