-- ===== src/Env/Pages.antt =====
-- compare_dependencies, match_dependencies_page and match_oes_page of src/amvp_operating_env.c: an
-- entry of the tables is looked up in a page of the server's entries. A page is searched for what
-- the code leaves of `rv`, `match`, the copied URL and `next_endpoint`.
use Prim.Native.Nat.{Ordering}
use libamvp.Common.{
  ℕ, zero, suc, ◌+◌, Bool, true, false, ◌&&◌, Option, none, some, List, [], ◌∷◌, ◌==◌,
  if◌then◌else◌, length, replicate, is_some, codes,
}
use libamvp.Result.{Result, json_err}
use libamvp.SafeC.Errno.{CStr}
use libamvp.SafeC.Compare.{strcmp_s}
use libamvp.SafeC.Copy.{strcpy_s}
use libamvp.Util.StringList.{word_of, is_equal}
use libamvp.Protocol.Json.{Json}
use libamvp.Env.Types.{Field, Dependency, oe_str_max, new_dependency}

abbrev pub attr_url_max : ℕ
attr_url_max = 2083

-- `diff` is 0 before each comparison; two strings that are absent are equal.
unfoldable pub equal_fields : Field → Field → Bool
equal_fields none none = true
equal_fields none (some t) = false
equal_fields (some s) none = false
equal_fields (some s) (some t) = is_equal (strcmp_s (some s) oe_str_max (some t) Ordering.eq).1

-- The names themselves are not compared.
unfoldable pub compare_dependencies : Dependency → Dependency → Bool
unfolding equal_fields
compare_dependencies a b =
    is_some a.name
    && is_some b.name
    && equal_fields a.type b.type
    && equal_fields a.description b.description
    && equal_fields a.series b.series
    && equal_fields a.family b.family
    && equal_fields a.version b.version
    && equal_fields a.manufacturer b.manufacturer

-- `p = calloc(AMVP_ATTR_URL_MAX + 1, 1); strcpy_s(p, AMVP_ATTR_URL_MAX + 1, url);`
unfoldable pub copied_url : CStr → Field
copied_url url =
    word_of (strcpy_s (some (replicate (attr_url_max + 1) 0)) (attr_url_max + 1) (some url))

-- An error, the URL of a match, or no match and the next page.
pub data Page : Type 0 where
  failed : Result → Page
  found : Field → Page
  onwards : Option CStr → Page

abbrev pub next_endpoint : Option CStr → Option CStr
next_endpoint none = none
next_endpoint (some next) = copied_url next

abbrev pub found_url : Option CStr → Page
found_url none = failed json_err
found_url (some url) = found (copied_url url)

abbrev pub read_field : Field → Option CStr → Field
read_field old none = old
read_field old (some s) = some s

-- An element that is no string is passed over, and `diff` keeps its 0 without a URL.
unfoldable pub same_url : Field → Option CStr → Bool
same_url url none = true
same_url url (some parsed_url) =
    is_equal (strcmp_s url attr_url_max (some parsed_url) Ordering.eq).1

module _ {Value Array Object : Type 0} (json : Json Value Array Object) where
  open json use {
    parse_string, get_array, get_count, get_object, get_string, get_array_of, get_object_of,
    get_string_at,
  }

  unfoldable pub first_object : Option Array → Option Object
  first_object none = none
  first_object (some arr) = get_object arr 0

  -- amvp_get_obj_from_rsp with a context.
  unfoldable pub get_obj_from_rsp : Value → Option Object
  unfolding first_object
  get_obj_from_rsp val = first_object (get_array val)

  unfoldable pub next_page : Option Object → Page
  next_page none = failed json_err
  next_page (some links) = onwards (next_endpoint (get_string links (codes "next")))

  -- What follows the loop over the entries.
  unfoldable pub links_page : Object → Page
  unfolding next_page
  links_page obj = next_page (get_object_of obj (codes "links"))

  unfoldable pub found_page : Object → Page
  found_page entry = found_url (get_string entry (codes "url"))

  -- The strings that the entry has replace those of `tmp_dep`.
  unfoldable pub read_dependency : Object → Dependency → Dependency
  read_dependency entry tmp = record tmp {
    type = read_field tmp.type (get_string entry (codes "type"));
    name = read_field tmp.name (get_string entry (codes "name"));
    description = read_field tmp.description (get_string entry (codes "description"));
    series = read_field tmp.series (get_string entry (codes "series"));
    family = read_field tmp.family (get_string entry (codes "family"));
    version = read_field tmp.version (get_string entry (codes "version"));
    manufacturer = read_field tmp.manufacturer (get_string entry (codes "manufacturer"));
  }

  -- The four other strings stay for the next entry.
  unfoldable pub forget_read : Dependency → Dependency
  forget_read tmp = record tmp { type = none; name = none; description = none }

  unfoldable pub dependency_entry :
      Dependency → Option Object → Dependency → (Dependency → Page) → Page
  unfolding compare_dependencies found_page read_dependency forget_read
  dependency_entry dep none tmp next = failed json_err
  dependency_entry dep (some entry) tmp next =
      let read = read_dependency entry tmp in
      if compare_dependencies dep read then found_page entry else next (forget_read read)

  -- The entries from index `i` on; the second argument is how many are left.
  unfoldable pub dependencies_loop : Dependency → ℕ → ℕ → Array → Object → Dependency → Page
  unfolding dependency_entry links_page
  dependencies_loop dep zero i arr obj tmp = links_page obj
  dependencies_loop dep (suc n) i arr obj tmp =
      dependency_entry dep (get_object arr i) tmp (dependencies_loop dep n (i + 1) arr obj)

  -- An absent array has no elements.
  unfoldable pub dependencies_in : Dependency → Object → Option Array → Page
  unfolding dependencies_loop links_page
  dependencies_in dep obj none = links_page obj
  dependencies_in dep obj (some arr) =
      dependencies_loop dep (get_count arr) 0 arr obj (new_dependency 0)

  unfoldable pub dependencies_page : Dependency → Option Object → Page
  unfolding dependencies_in
  dependencies_page dep none = failed json_err
  dependencies_page dep (some obj) = dependencies_in dep obj (get_array_of obj (codes "data"))

  unfoldable pub dependencies_value : Dependency → Option Value → Page
  unfolding dependencies_page get_obj_from_rsp
  dependencies_value dep none = failed json_err
  dependencies_value dep (some val) = dependencies_page dep (get_obj_from_rsp val)

  -- The received body is the second argument.
  unfoldable pub match_dependencies_page : Dependency → Option CStr → Page
  unfolding dependencies_value
  match_dependencies_page dep curl_buf = dependencies_value dep (parse_string curl_buf)

  unfoldable pub same_urls : List Field → ℕ → Array → Bool
  unfolding same_url
  same_urls [] k arr = true
  same_urls (url ∷ urls) k arr = same_url url (get_string_at arr k) && same_urls urls (k + 1) arr

  unfoldable pub oe_urls : List Field → Object → Option Array → Page → Page
  unfolding same_urls found_page
  oe_urls urls entry none next = failed json_err
  oe_urls urls entry (some arr) next =
      if length urls == get_count arr && same_urls urls 0 arr then found_page entry else next

  unfoldable pub oe_entry : List Field → Option Object → Page → Page
  unfolding oe_urls
  oe_entry urls none next = failed json_err
  oe_entry urls (some entry) next =
      oe_urls urls entry (get_array_of entry (codes "dependencyUrls")) next

  unfoldable pub oes_loop : List Field → ℕ → ℕ → Array → Object → Page
  unfolding oe_entry links_page
  oes_loop urls zero i arr obj = links_page obj
  oes_loop urls (suc n) i arr obj =
      let next = oes_loop urls n (i + 1) arr obj in oe_entry urls (get_object arr i) next

  unfoldable pub oes_in : List Field → Object → Option Array → Page
  unfolding oes_loop links_page
  oes_in urls obj none = links_page obj
  oes_in urls obj (some arr) = oes_loop urls (get_count arr) 0 arr obj

  unfoldable pub oes_page : List Field → Option Object → Page
  unfolding oes_in
  oes_page urls none = failed json_err
  oes_page urls (some obj) = oes_in urls obj (get_array_of obj (codes "data"))

  unfoldable pub oes_value : List Field → Option Value → Page
  unfolding oes_page get_obj_from_rsp
  oes_value urls none = failed json_err
  oes_value urls (some val) = oes_page urls (get_obj_from_rsp val)

  -- The URLs of the dependencies of the operating environment, and the received body.
  unfoldable pub match_oes_page : List Field → Option CStr → Page
  unfolding oes_value
  match_oes_page urls curl_buf = oes_value urls (parse_string curl_buf)
