-- ===== src/Env/Modules.antt =====
-- compare_modules, match_modules_page and query_module of src/amvp_operating_env.c. A module is
-- passed with its vendor; `none` is a query that has not ended on its fuel, or a read through the
-- URL of a vendor that has none.
use Prim.Native.Nat.{Ordering}
use libamvp.Common.{
  ℕ, zero, suc, ◌+◌, Bool, true, false, ◌&&◌, ◌||◌, not, Option, none, some, List, [], ◌∷◌, ◌==◌,
  ltb, if◌then◌else◌, length, replicate, drop, codes, is_some,
}
use libamvp.Result.{Result, success, json_err}
use libamvp.SafeC.Errno.{CStr}
use libamvp.SafeC.Compare.{strcmp_s, strstr_s}
use libamvp.Util.StringList.{KvList, is_equal}
use libamvp.Protocol.Json.{Json}
use libamvp.Env.Types.{Field, Person, Vendor, Module, oe_str_max, new_module, new_vendor}
use libamvp.Env.Pages.{Page, failed, found, onwards, attr_url_max, get_obj_from_rsp, found_page}
use libamvp.Env.Query.{Server, add_parameter, start_query, answered}
use libamvp.Env.Vendors.{vendor_links}

abbrev pub persons_max : ℕ
persons_max = 8

abbrev pub same_at : ℕ → Field → Field → Bool
same_at max s t = is_equal (strcmp_s s max t Ordering.eq).1

-- The persons of the second vendor are at least as many, those that were not set without a URL.
unfoldable pub same_persons : List Person → List Person → Bool
same_persons [] qs = true
same_persons (p ∷ ps) [] = false
same_persons (p ∷ ps) (q ∷ qs) =
    is_some p.url && is_some q.url && same_at attr_url_max p.url q.url && same_persons ps qs

abbrev pub has_all : Module → Vendor → Bool
has_all m v =
    is_some m.type
    && is_some m.name
    && is_some m.description
    && is_some m.version
    && is_some v.url
    && is_some v.address.url

-- Each module with its vendor.
unfoldable pub compare_modules : Module → Vendor → Module → Vendor → Bool
unfolding same_persons
compare_modules a u b v =
    has_all a u
    && has_all b v
    && same_at oe_str_max a.type b.type
    && same_at oe_str_max a.name b.name
    && same_at oe_str_max a.version b.version
    && same_at oe_str_max a.description b.description
    && same_at attr_url_max u.url v.url
    && same_at attr_url_max u.address.url v.address.url
    && same_persons u.persons v.persons

-- The loop over the slashes of the vendor's URL; each iteration consumes a byte.
unfoldable pub slash_loop : ℕ → CStr → CStr → CStr
slash_loop zero ptr ptr_old = ptr_old
slash_loop (suc fuel) ptr ptr_old = elim (strstr_s ptr 0 (codes "/") 1).1 [
  | none ↦ ptr_old
  | some slash ↦ slash_loop fuel (drop 1 slash) slash
]

-- `ptr + 1`; the URL stands in a larger object that ends with zeros.
unfoldable pub vendor_id : Field → Option CStr
unfolding slash_loop
vendor_id none = none
vendor_id (some url) = some (drop 1 (slash_loop (length url) url url))

unfoldable pub module_parameters : Module → CStr → Result × KvList
unfolding add_parameter
module_parameters m id = add_parameter (codes "vendorId[0]=eq:") (some id) (
    add_parameter (codes "description[0]=eq:") m.description (
      add_parameter (codes "version[0]=eq:") m.version (
        add_parameter (codes "type[0]=eq:") m.type
          (add_parameter (codes "name[0]=eq:") m.name (success, some [])))))

unfoldable pub module_answer : {W : Type 0} → Module → Page × W → Result × Module × W
module_answer m (failed rv, w) = (rv, m, w)
module_answer m (found url, w) = (success, record m { url = url }, w)
module_answer m (onwards next, w) = (success, m, w)

module _ {Value Array Object : Type 0} (json : Json Value Array Object) where
  open json use {
    parse_string, get_count, get_object, get_string, get_array_of, get_object_of, get_string_at,
  }

  unfoldable pub read_module : Object → Module
  read_module entry = record (new_module 0) {
    type = get_string entry (codes "type");
    name = get_string entry (codes "name");
    version = get_string entry (codes "version");
    description = get_string entry (codes "description");
  }

  abbrev pub contact_at : Option CStr → Person
  contact_at url = record { url = url; full_name = none; phone_numbers = []; emails = [] }

  -- Every contact takes the string at the index `i` of the entry.
  unfoldable pub read_vendor : Object → Array → ℕ → Vendor
  read_vendor entry contact_urls i = record (new_vendor 0) {
    url = get_string entry (codes "vendorUrl");
    address = record (new_vendor 0).address { url = get_string entry (codes "addressUrl") };
    persons = replicate (get_count contact_urls) (contact_at (get_string_at contact_urls i));
  }

  unfoldable pub module_contacts : Module → Vendor → ℕ → Object → Option Array → Page → Page
  unfolding compare_modules found_page read_module read_vendor
  module_contacts m v i entry none next = failed json_err
  module_contacts m v i entry (some urls) next =
      let same = compare_modules m v (read_module entry) (read_vendor entry urls i) in
      if not (get_count urls == length v.persons) || ltb persons_max (get_count urls)
      then next
      else (if same then found_page json entry else next)

  unfoldable pub module_entry : Module → Vendor → ℕ → Option Object → Page → Page
  unfolding module_contacts
  module_entry m v i none next = failed json_err
  module_entry m v i (some entry) next =
      module_contacts m v i entry (get_array_of entry (codes "contactUrls")) next

  unfoldable pub modules_loop : Module → Vendor → ℕ → ℕ → Array → Object → Page
  unfolding module_entry vendor_links
  modules_loop m v zero i arr obj = vendor_links json (get_object_of obj (codes "links"))
  modules_loop m v (suc n) i arr obj =
      let next = modules_loop m v n (i + 1) arr obj in module_entry m v i (get_object arr i) next

  unfoldable pub modules_in : Module → Vendor → Object → Option Array → Page
  unfolding modules_loop vendor_links
  modules_in m v obj none = vendor_links json (get_object_of obj (codes "links"))
  modules_in m v obj (some arr) = modules_loop m v (get_count arr) 0 arr obj

  unfoldable pub modules_page : Module → Vendor → Option Object → Page
  unfolding modules_in
  modules_page m v none = failed json_err
  modules_page m v (some obj) = modules_in m v obj (get_array_of obj (codes "data"))

  unfoldable pub modules_value : Module → Vendor → Option Value → Page
  unfolding modules_page
  modules_value m v none = failed json_err
  modules_value m v (some val) = modules_page m v (get_obj_from_rsp json val)

  unfoldable pub match_modules_page : Module → Vendor → Option CStr → Page
  unfolding modules_value
  match_modules_page m v curl_buf = modules_value m v (parse_string curl_buf)

  module _ {W : Type 0} (server : Server W) where
    open server use {curl_buf}

    unfoldable pub query_pages_of :
        ℕ → Module → Vendor → Option CStr → W → Option (Result × Module × W)
    unfolding start_query module_parameters module_answer
    query_pages_of fuel m v none w = none
    query_pages_of fuel m v (some id) w =
        let match_page = λ (s : W). match_modules_page m v (curl_buf s) in
        answered (module_answer m)
          (start_query server match_page fuel (codes "modules?") (module_parameters m id) w)

    unfoldable pub query_module : ℕ → Module → Vendor → W → Option (Result × Module × W)
    unfolding query_pages_of vendor_id
    query_module fuel m v w =
        let asked = query_pages_of fuel m v (vendor_id v.url) w in
        if is_some m.url then some (success, m, w) else asked
