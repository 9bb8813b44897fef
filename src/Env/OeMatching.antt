-- ===== src/Env/OeMatching.antt =====
-- A match in a page of operating environments.
use libamvp.Common.{
  ℕ, zero, suc, ◌+◌, ◌≡◌, ◌≢◌, refl, ap, sym, true, ◌&&◌, ◌==◌, Option, none, some, List, [], ◌∷◌,
  arith, length, codes, Bool-cases, Option-cases, inl, inr,
}
use libamvp.SafeC.Errno.{CStr}
use libamvp.Protocol.Json.{Json}
use libamvp.Env.Types.{Field}
use libamvp.Env.Pages.{
  Page, found, next_page, links_page, found_page, get_obj_from_rsp, copied_url, same_url, same_urls,
  oe_urls, oe_entry, oes_loop, oes_in, oes_page, oes_value, match_oes_page, attr_url_max,
}
use libamvp.Env.Matching.{strings_iff}
use libamvp.Env.Verify.{all_some}

module _ {Value Array Object : Type 0} (json : Json Value Array Object) where
  open json use {
    parse_string, get_array, get_count, get_object, get_string, get_array_of, get_object_of,
    get_string_at,
  }

  -- Every string of the array is the URL at its place.
  abbrev pub Lists : List Field → ℕ → Array → Type 0
  Lists [] k arr = Unit
  Lists (url ∷ urls) k arr =
      ((s : CStr) → get_string_at arr k ≡ some s → url ≡ some s) × Lists urls (k + 1) arr

  -- An entry of the array has as many dependency URLs as `urls`, no other strings, and the URL
  -- that is copied.
  pub record IsOeEntry (urls : List Field) (arr : Array) (url : Field) : Type 0 where
    pub index : ℕ
    pub entry : Object
    pub listed : Array
    pub address : CStr
    pub present : get_object arr index ≡ some entry
    pub has_urls : get_array_of entry (codes "dependencyUrls") ≡ some listed
    pub as_many : length urls ≡ get_count listed
    pub same : Lists urls 0 listed
    pub addressed : get_string entry (codes "url") ≡ some address
    pub copied : url ≡ copied_url address

  same_urls-Lists :
      (urls : List Field) (k : ℕ) (arr : Array)
      → all_some urls ≡ true
      → same_urls json urls k arr ≡ true
      → Lists urls k arr
  unfolding same_urls same_url all_some
  same_urls-Lists [] k arr a h = tt
  same_urls-Lists (none ∷ urls) k arr a h = cc
  same_urls-Lists (some url ∷ urls) k arr a h = (
    λ s e.
        let m : same_url (some url) (some s) ≡ true = rw (sym e) (ground arith) in
        ap some ((strings_iff url s attr_url_max (omega arith) (omega arith)).0 m),
    same_urls-Lists urls (k + 1) arr a (ground arith),
  )

  links_page-found : (obj : Object) (url : Field) → links_page json obj ≢ found url
  unfolding links_page next_page
  links_page-found obj url h = elim (Option-cases (get_object_of obj (codes "links"))) [
    | inl e ↦ ground (arith, h, e)
    | inr (links, e) ↦ ground (arith, h, e)
  ]

  found_page-address :
      (entry : Object) (url : Field)
      → found_page json entry ≡ found url
      → (address : CStr) × (get_string entry (codes "url") ≡ some address)
        × (url ≡ copied_url address)
  unfolding found_page
  found_page-address entry url h = elim (Option-cases (get_string entry (codes "url"))) [
    | inl e ↦ absurd (ground (arith, h, e))
    | inr (address, e) ↦ (address, e, ground (arith, h, e))
  ]

  oe_urls-found :
      (urls : List Field) (arr : Array) (i : ℕ) (entry : Object) (next : Page) (url : Field)
      (given : Option Array)
      → all_some urls ≡ true
      → get_object arr i ≡ some entry
      → get_array_of entry (codes "dependencyUrls") ≡ given
      → (next ≡ found url → IsOeEntry urls arr url)
      → oe_urls json urls entry given next ≡ found url
      → IsOeEntry urls arr url
  unfolding oe_urls
  oe_urls-found urls arr i entry next url none a e g more h = cc
  oe_urls-found urls arr i entry next url (some listed) a e g more h =
      elim (Bool-cases (length urls == get_count listed && same_urls json urls 0 listed)) [
        | inl t ↦
            let at : found_page json entry ≡ found url = ground (arith, h, t) in
            let (address, addressed, copied) = found_page-address entry url at in
            record {
              index = i;
              entry = entry;
              listed = listed;
              address = address;
              present = e;
              has_urls = g;
              as_many = ground arith;
              same = same_urls-Lists urls 0 listed a (ground arith);
              addressed = addressed;
              copied = copied;
            }
        | inr f ↦ more (ground (arith, h, f))
      ]

  oe_entry-found :
      (urls : List Field) (arr : Array) (i : ℕ) (at : Option Object) (next : Page) (url : Field)
      → all_some urls ≡ true
      → get_object arr i ≡ at
      → (next ≡ found url → IsOeEntry urls arr url)
      → oe_entry json urls at next ≡ found url
      → IsOeEntry urls arr url
  unfolding oe_entry
  oe_entry-found urls arr i none next url a e more h = cc
  oe_entry-found urls arr i (some entry) next url a e more h =
      oe_urls-found urls arr i entry next url _ a e refl more h

  oes_loop-found :
      (urls : List Field) (n i : ℕ) (arr : Array) (obj : Object) (url : Field)
      → all_some urls ≡ true
      → oes_loop json urls n i arr obj ≡ found url
      → IsOeEntry urls arr url
  unfolding oes_loop
  oes_loop-found urls zero i arr obj url a h = absurd (links_page-found obj url h)
  oes_loop-found urls (suc n) i arr obj url a h =
      oe_entry-found urls arr i _ _ url a refl (oes_loop-found urls n (i + 1) arr obj url a) h

  oes_in-found :
      (urls : List Field) (obj : Object) (given : Option Array) (url : Field)
      → all_some urls ≡ true
      → oes_in json urls obj given ≡ found url
      → (arr : Array) × (given ≡ some arr) × IsOeEntry urls arr url
  unfolding oes_in
  oes_in-found urls obj none url a h = absurd (links_page-found obj url h)
  oes_in-found urls obj (some arr) url a h =
      (arr, refl, oes_loop-found urls (get_count arr) 0 arr obj url a h)

  -- When each URL of the dependencies is there and a page gives a match, then the body is JSON
  -- with an entry in the array "data" of its first object that has as many dependency URLs as the
  -- operating environment has dependencies, all its strings the same as theirs, and the URL that
  -- is copied.
  pub match_oes_page-found :
      (urls : List Field) (curl_buf : Option CStr) (url : Field)
      → all_some urls ≡ true
      → match_oes_page json urls curl_buf ≡ found url
      → (val : Value) × (obj : Object) × (arr : Array) × (parse_string curl_buf ≡ some val)
        × (get_obj_from_rsp json val ≡ some obj)
        × (get_array_of obj (codes "data") ≡ some arr)
        × IsOeEntry urls arr url
  unfolding match_oes_page oes_value oes_page
  match_oes_page-found urls curl_buf url a h = elim (Option-cases (parse_string curl_buf)) [
    | inl p ↦ cc
    | inr (val, p) ↦ elim (Option-cases (get_obj_from_rsp json val)) [
      | inl o ↦ cc
      | inr (obj, o) ↦
          let at : oes_in json urls obj (get_array_of obj (codes "data")) ≡ found url =
            ground (arith, h, p, o) in
          let (arr, d, entry) = oes_in-found urls obj (get_array_of obj (codes "data")) url a at in
          (val, obj, arr, p, o, d, entry)
    ]
  ]
