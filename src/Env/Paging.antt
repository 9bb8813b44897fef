-- ===== src/Env/Paging.antt =====
-- A page without a match leads where the links of its body say.
use libamvp.Common.{
  ℕ, zero, suc, ◌+◌, ◌≡◌, refl, ◌&&◌, Option, none, some, List, length, codes, Option-cases, inl,
  inr, if-both, ◌==◌,
}
use libamvp.Result.{json_err}
use libamvp.SafeC.Errno.{CStr}
use libamvp.Protocol.Json.{Json}
use libamvp.Env.Types.{Field, Dependency, new_dependency}
use libamvp.Env.Pages.{
  Page, failed, found, onwards, links_page, found_page, found_url, get_obj_from_rsp,
  dependency_entry, dependencies_loop, dependencies_in, dependencies_page, dependencies_value,
  match_dependencies_page, compare_dependencies, read_dependency, oe_urls, oe_entry, oes_loop,
  oes_in, oes_page, oes_value, match_oes_page, same_urls,
}

-- A page that leads to another one is `links`.
abbrev pub Leads : Page → Page → Type 0
Leads links (onwards (some next)) = links ≡ onwards (some next)
Leads links _ = Unit

Leads-self : (p : Page) → Leads p p
Leads-self (failed rv) = tt
Leads-self (found url) = tt
Leads-self (onwards none) = tt
Leads-self (onwards (some next)) = refl

module _ {Value Array Object : Type 0} (json : Json Value Array Object) where
  open json use {parse_string, get_array_of, get_object, get_count, get_string}

  abbrev links_of : Option Object → Page
  links_of none = failed json_err
  links_of (some obj) = links_page json obj

  abbrev links_in : Option Value → Page
  links_in none = failed json_err
  links_in (some val) = links_of (get_obj_from_rsp json val)

  -- What the links of a body say, whatever its entries are.
  abbrev pub body_links : Option CStr → Page
  body_links curl_buf = links_in (parse_string curl_buf)

  found_url-Leads : (links : Page) (url : Option CStr) → Leads links (found_url url)
  found_url-Leads links none = tt
  found_url-Leads links (some url) = tt

  dependency_entry-Leads :
      (links : Page) (dep : Dependency) (entry : Option Object) (tmp : Dependency)
      (next : Dependency → Page)
      → ((t : Dependency) → Leads links (next t))
      → Leads links (dependency_entry json dep entry tmp next)
  unfolding dependency_entry found_page
  dependency_entry-Leads links dep none tmp next more = tt
  dependency_entry-Leads links dep (some entry) tmp next more =
      if-both (Leads links) (compare_dependencies dep (read_dependency json entry tmp))
        (found_url-Leads links (get_string entry (codes "url"))) (more _)

  dependencies_loop-Leads :
      (dep : Dependency) (n i : ℕ) (arr : Array) (obj : Object) (tmp : Dependency)
      → Leads (links_page json obj) (dependencies_loop json dep n i arr obj tmp)
  unfolding dependencies_loop
  dependencies_loop-Leads dep zero i arr obj tmp = Leads-self (links_page json obj)
  dependencies_loop-Leads dep (suc n) i arr obj tmp =
      dependency_entry-Leads _ dep (get_object arr i) tmp _
        (dependencies_loop-Leads dep n (i + 1) arr obj)

  pub match_dependencies_page-Leads :
      (dep : Dependency) (curl_buf : Option CStr)
      → Leads (body_links curl_buf) (match_dependencies_page json dep curl_buf)
  unfolding match_dependencies_page dependencies_value dependencies_page dependencies_in
  match_dependencies_page-Leads dep curl_buf = elim (Option-cases (parse_string curl_buf)) [
    | inl p ↦ rw p tt
    | inr (val, p) ↦ elim (Option-cases (get_obj_from_rsp json val)) [
      | inl o ↦ rw (p, o) tt
      | inr (obj, o) ↦ elim (Option-cases (get_array_of obj (codes "data"))) [
        | inl d ↦ rw (p, o, d) (Leads-self (links_page json obj))
        | inr (arr, d) ↦
            rw (p, o, d) (dependencies_loop-Leads dep (get_count arr) 0 arr obj (new_dependency 0))
      ]
    ]
  ]

  oe_entry-Leads :
      (links : Page) (urls : List Field) (entry : Option Object) (next : Page)
      → Leads links next
      → Leads links (oe_entry json urls entry next)
  unfolding oe_entry oe_urls found_page
  oe_entry-Leads links urls none next more = tt
  oe_entry-Leads links urls (some entry) next more =
      elim (Option-cases (get_array_of entry (codes "dependencyUrls"))) [
        | inl g ↦ rw g tt
        | inr (arr, g) ↦ rw g (
            if-both (Leads links) (length urls == get_count arr && same_urls json urls 0 arr)
              (found_url-Leads links (get_string entry (codes "url"))) more)
      ]

  oes_loop-Leads :
      (urls : List Field) (n i : ℕ) (arr : Array) (obj : Object)
      → Leads (links_page json obj) (oes_loop json urls n i arr obj)
  unfolding oes_loop
  oes_loop-Leads urls zero i arr obj = Leads-self (links_page json obj)
  oes_loop-Leads urls (suc n) i arr obj =
      oe_entry-Leads _ urls (get_object arr i) _ (oes_loop-Leads urls n (i + 1) arr obj)

  pub match_oes_page-Leads :
      (urls : List Field) (curl_buf : Option CStr)
      → Leads (body_links curl_buf) (match_oes_page json urls curl_buf)
  unfolding match_oes_page oes_value oes_page oes_in
  match_oes_page-Leads urls curl_buf = elim (Option-cases (parse_string curl_buf)) [
    | inl p ↦ rw p tt
    | inr (val, p) ↦ elim (Option-cases (get_obj_from_rsp json val)) [
      | inl o ↦ rw (p, o) tt
      | inr (obj, o) ↦ elim (Option-cases (get_array_of obj (codes "data"))) [
        | inl d ↦ rw (p, o, d) (Leads-self (links_page json obj))
        | inr (arr, d) ↦ rw (p, o, d) (oes_loop-Leads urls (get_count arr) 0 arr obj)
      ]
    ]
  ]
