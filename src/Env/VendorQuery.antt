-- ===== src/Env/VendorQuery.antt =====
-- query_vendor of src/amvp_operating_env.c, with no endpoint given.
use libamvp.Common.{ℕ, zero, suc, Option, none, some, List, [], ◌∷◌, if◌then◌else◌, is_some, codes}
use libamvp.Result.{Result, success, is_success}
use libamvp.SafeC.Errno.{CStr}
use libamvp.Util.StringList.{KvList}
use libamvp.Protocol.Json.{Json}
use libamvp.Env.Types.{Field, Vendor}
use libamvp.Env.Pages.{Page, failed, found, onwards}
use libamvp.Env.Query.{Server, Params, add_parameter, params_of, first_endpoint}
use libamvp.Env.Vendors.{match_vendors_page}

abbrev pub first_email : List CStr → Field
first_email [] = none
first_email (s ∷ ss) = some s

unfoldable pub vendor_parameters : Vendor → Result × KvList
unfolding add_parameter
vendor_parameters vendor = add_parameter (codes "email[0]=eq:") (first_email vendor.emails) (
    add_parameter (codes "website[0]=eq:") vendor.website
      (add_parameter (codes "name[0]=eq:") vendor.name (success, some [])))

-- What a query leaves.
abbrev pub Asked : Type 0 → Type 0
Asked W = Option (Result × Vendor × W)

unfoldable pub go_to_page :
    {W : Type 0} → Option (Page × Vendor × W) → (CStr → Vendor → W → Asked W) → Asked W
go_to_page none more = none
go_to_page (some (failed rv, vendor, w)) more = some (rv, vendor, w)
go_to_page (some (found url, vendor, w)) more = some (success, record vendor { url = url }, w)
go_to_page (some (onwards none, vendor, w)) more = some (success, vendor, w)
go_to_page (some (onwards (some endpoint), vendor, w)) more = more endpoint vendor w

module _ {Value Array Object W : Type 0} (json : Json Value Array Object) (server : Server W) where
  open server use {transport_get, path_segment}

  unfoldable pub after_get : ℕ → Vendor → Result × W → (CStr → Vendor → W → Asked W) → Asked W
  unfolding go_to_page
  after_get fuel vendor (rv, w) more =
      if is_success rv
      then go_to_page (match_vendors_page json server fuel vendor w) more
      else some (rv, vendor, w)

  -- The loop over the pages; `fuel` is left for each page.
  unfoldable pub vendor_pages : ℕ → ℕ → Params → CStr → Vendor → W → Asked W
  unfolding after_get
  vendor_pages fuel zero params endpoint vendor w = none
  vendor_pages fuel (suc pages) params endpoint vendor w =
      after_get fuel vendor (transport_get endpoint params w) (vendor_pages fuel pages [])

  unfoldable pub start_vendor : ℕ → Result × KvList → Vendor → W → Asked W
  unfolding vendor_pages first_endpoint
  start_vendor fuel (rv, kvs) vendor w =
      let endpoint = first_endpoint (path_segment w) (codes "vendors?") in
      let pages = vendor_pages fuel fuel (params_of kvs) endpoint vendor w in
      if is_success rv then pages else some (rv, vendor, w)

  unfoldable pub query_vendor : ℕ → Vendor → W → Asked W
  unfolding start_vendor vendor_parameters
  query_vendor fuel vendor w =
      let asked = start_vendor fuel (vendor_parameters vendor) vendor w in
      if is_some vendor.url then some (success, vendor, w) else asked
