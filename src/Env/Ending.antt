-- ===== src/Env/Ending.antt =====
-- A query ends when the pages of the server end.
use libamvp.Common.{
  ℕ, zero, suc, ◌<◌, ◌≡◌, refl, true, Option, none, some, List, [], arith, codes, is_some, if-both,
  if-split,
}
use libamvp.Result.{Result, success, is_success}
use libamvp.SafeC.Errno.{CStr}
use libamvp.Util.StringList.{KvList}
use libamvp.Protocol.Json.{Json}
use libamvp.Env.Types.{Field, Dependency, Oe}
use libamvp.Env.Pages.{Page, failed, found, onwards}
use libamvp.Env.Query.{
  Params, Server, after_page, go_to, query_pages, answered, start_query, query_dependency, query_oe,
  dependency_parameters, add_parameter,
}
use libamvp.Env.Paging.{Leads, body_links, match_dependencies_page-Leads, match_oes_page-Leads}

module _ {Value Array Object W : Type 0} (json : Json Value Array Object) (server : Server W) where
  open server use {transport_get, curl_buf, path_segment}

  -- The next page of each page that the server sends has a smaller rank, and no rank is above
  -- the bound.
  pub record IsPaged (rank : CStr → ℕ) (bound : ℕ) : Type 0 where
    pub descends :
        (endpoint : CStr) (params : Params) (w : W) (next : CStr)
        → is_success (transport_get endpoint params w).0 ≡ true
        → body_links json (curl_buf (transport_get endpoint params w).1) ≡ onwards (some next)
        → rank next < rank endpoint
    pub short : (endpoint : CStr) → rank endpoint < bound

  go_to_ends :
      (links p : Page) (w : W) (more : CStr → W → Option (Page × W))
      → Leads links p
      → ((next : CStr) → links ≡ onwards (some next) → is_some (more next w) ≡ true)
      → is_some (go_to (p, w) more) ≡ true
  unfolding go_to
  go_to_ends links (failed rv) w more led h = refl
  go_to_ends links (found url) w more led h = refl
  go_to_ends links (onwards none) w more led h = refl
  go_to_ends links (onwards (some next)) w more led h = h next led

  after_page_ends :
      (match_page : W → Page) (r : Result × W) (more : CStr → W → Option (Page × W))
      → ((w : W) → Leads (body_links json (curl_buf w)) (match_page w))
      → ((next : CStr)
          → is_success r.0 ≡ true
          → body_links json (curl_buf r.1) ≡ onwards (some next)
          → is_some (more next r.1) ≡ true)
      → is_some (go_to (after_page server match_page r) more) ≡ true
  unfolding after_page
  after_page_ends match_page (rv, w) more led h =
      if-split (λ p. is_some (go_to (p, w) more) ≡ true) (is_success rv)
        (λ t.
          go_to_ends (body_links json (curl_buf w)) (match_page w) w more (led w)
            (λ next. h next t))
        (λ f. go_to_ends (failed rv) (failed rv) w more tt (λ next e. cc))

  query_pages_ends :
      (match_page : W → Page)
      → ((w : W) → Leads (body_links json (curl_buf w)) (match_page w))
      → (rank : CStr → ℕ) (bound : ℕ) → IsPaged rank bound
      → (fuel : ℕ) (params : Params) (endpoint : CStr) (w : W) → rank endpoint < fuel
      → is_some (query_pages server match_page fuel params endpoint w) ≡ true
  unfolding query_pages
  query_pages_ends match_page led rank bound paged zero params endpoint w h = absurd (omega arith)
  query_pages_ends match_page led rank bound paged (suc fuel) params endpoint w h =
      after_page_ends match_page (transport_get endpoint params w) _ led (λ next t e.
        query_pages_ends match_page led rank bound paged fuel [] next _
          (omega (arith, paged.descends endpoint params w next t e)))

  start_query_ends :
      (match_page : W → Page)
      → ((w : W) → Leads (body_links json (curl_buf w)) (match_page w))
      → (rank : CStr → ℕ) (bound : ℕ) → IsPaged rank bound
      → (resource : CStr) (parameters : Result × KvList) (w : W)
      → is_some (start_query server match_page bound resource parameters w) ≡ true
  unfolding start_query
  start_query_ends match_page led rank bound paged resource (rv, kvs) w =
      if-both {A = Option (Page × W)} (λ r. is_some r ≡ true) (is_success rv)
        (query_pages_ends match_page led rank bound paged bound _ _ w (paged.short _)) refl

  answered_some :
      {A B : Type 0} (f : A → B) (o : Option A) → is_some o ≡ true → is_some (answered f o) ≡ true
  answered_some f none h = h
  answered_some f (some a) h = refl

  pub query_dependency_ends :
      (rank : CStr → ℕ) (bound : ℕ)
      → IsPaged rank bound
      → (dep : Dependency) (w : W) → is_some (query_dependency server json bound dep w) ≡ true
  unfolding query_dependency
  query_dependency_ends rank bound paged dep w =
      if-both {A = Option (Result × Dependency × W)} (λ r. is_some r ≡ true) (is_some dep.url) refl
        (answered_some _ _ (
          start_query_ends _ (λ v. match_dependencies_page-Leads json dep (curl_buf v)) rank bound
            paged (codes "dependencies?") (dependency_parameters dep) w))

  pub query_oe_ends :
      (rank : CStr → ℕ) (bound : ℕ)
      → IsPaged rank bound
      → (urls : List Field) (oe : Oe) (w : W)
      → is_some (query_oe server json bound urls oe w) ≡ true
  unfolding query_oe
  query_oe_ends rank bound paged urls oe w =
      if-both {A = Option (Result × Oe × W)} (λ r. is_some r ≡ true) (is_some oe.url) refl
        (answered_some _ _ (
          start_query_ends _ (λ v. match_oes_page-Leads json urls (curl_buf v)) rank bound paged
            (codes "oes?") (add_parameter (codes "name[0]=eq:") oe.name (success, some [])) w))
