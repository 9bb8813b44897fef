-- ===== src/Examples/VendorRuns.antt =====
-- Runs of the queries for vendors and modules of src/amvp_operating_env.c.
use libamvp.Common.{ℕ, ◌≡◌, refl, true, Option, none, some, List, [], ◌∷◌, arith, codes, is_some}
use libamvp.Result.{success}
use libamvp.SafeC.Errno.{CStr}
use libamvp.SafeC.Compare.{strnlen, strcmp_s, strcmp}
use libamvp.SafeC.Copy.{strcpy_s, overwrite, padded}
use libamvp.Env.Types.{
  Vendor, Module, new_vendor, new_module, Env, new_dependency, new_oe, empty_env,
}
use libamvp.Env.Pages.{
  match_oes_page, found, copied_url, get_obj_from_rsp, first_object, links_page, next_page,
  found_page, oes_value, oes_page, oes_in, oes_loop, oe_entry, oe_urls, same_urls, same_url,
}
use libamvp.Env.Query.{
  query_dependency, start_query, query_pages, after_page, go_to, add_parameter, first_endpoint,
  query_oe, oe_answer,
}
use libamvp.Env.Verify.{
  verify_loop, after_query, query_linked, verify_fips_oe, verify_oe_at, after_dependencies,
  verify_linked, finish_oe, verify_fips_oe_dependencies, all_some,
}
use libamvp.Examples.TestServer.{entry, text, read_page, tree_json, test_server}
use libamvp.Env.Vendors.{match_vendors_page, vendor_links}
use libamvp.Env.Emails.{match_vendors_page_hangs}
use libamvp.Env.Modules.{
  same_persons, compare_modules, read_module, read_vendor, module_contacts, module_entry,
  modules_loop, modules_in, modules_page, modules_value, match_modules_page, query_module,
}
use libamvp.Env.Persons.{OneContact, match_modules_page_contacts}
use libamvp.Env.VendorQuery.{query_vendor}
use libamvp.Env.Metadata.{
  verify_fips_validation_metadata, verify_fips_module, then_verify, after_module, after_vendor,
  verify_module_of,
}
use libamvp.Env.VendorFirst.{vendor_url, verify_fips_validation_metadata_vendor}

abbrev two_emails : List CStr
two_emails = codes "a@x" ∷ codes "b@x" ∷ []

match_vendors_page_hangs_example :
    match_vendors_page tree_json test_server 1000
      (record (new_vendor 4) { emails = two_emails })
      (codes "2")
    ≡ none
unfolding get_obj_from_rsp first_object
match_vendors_page_hangs_example =
    match_vendors_page_hangs tree_json test_server 1000
      (record (new_vendor 4) { emails = two_emails }) (codes "2") (read_page (codes "2"))
      (read_page (codes "2"))
      (entry ((codes "name", codes "lib") ∷ (codes "url", codes "/9") ∷ []) (codes "/8" ∷ []))
      (entry ((codes "name", codes "lib") ∷ (codes "url", codes "/9") ∷ []) (codes "/8" ∷ []) ∷ [])
      (text (codes "/8") ∷ []) 0 (omega arith) refl refl refl refl refl refl

abbrev core : Module
core = record (new_module 6) {
  name = some (codes "core");
  type = some (codes "Software");
  version = some (codes "1");
  description = some (codes "core");
  vendor = some 0;
}

abbrev maker : Vendor
maker = record (new_vendor 4) {
  url = some (codes "/v/4");
  address = record (new_vendor 4).address { url = some (codes "/a/4") };
  persons =
      record { url = some (codes "/p/1"); full_name = none; phone_numbers = []; emails = [] } ∷ [];
}

module_found :
    match_modules_page tree_json core maker (some (codes "5")) ≡ found (copied_url (codes "/m/6"))
unfolding match_modules_page modules_value modules_page modules_in modules_loop module_entry
    module_contacts compare_modules same_persons read_module read_vendor found_page get_obj_from_rsp
    first_object strcmp_s strcmp vendor_links
module_found = refl

match_modules_page_contacts_example : OneContact maker
match_modules_page_contacts_example =
    match_modules_page_contacts tree_json core maker (some (codes "5")) (copied_url (codes "/m/6"))
      module_found

abbrev registered : Env
registered = record empty_env {
  vendors = maker ∷ [];
  modules = record core { url = some (codes "/m/6") } ∷ [];
  dependencies = record (new_dependency 8) { url = some (codes "/8") } ∷ [];
  oes = record (new_oe 3) { deps = 0 ∷ [] } ∷ [];
}

run_metadata :
    (env' : Env) × (w : CStr) × (verify_fips_validation_metadata tree_json test_server 3 registered
        (some 0)
        (some 0)
        []
      ≡ some (success, env', w))
unfolding verify_fips_validation_metadata verify_fips_module then_verify after_module after_vendor
    verify_module_of query_vendor query_module verify_fips_oe verify_oe_at after_dependencies
    verify_linked finish_oe all_some verify_fips_oe_dependencies verify_loop after_query
    query_linked query_dependency query_oe oe_answer start_query query_pages after_page go_to
    add_parameter first_endpoint match_oes_page oes_value oes_page oes_in oes_loop oe_entry oe_urls
    same_urls same_url found_page links_page next_page get_obj_from_rsp first_object copied_url
    strcpy_s overwrite padded strcmp_s strcmp strnlen
run_metadata = (_, _, refl)

verify_fips_validation_metadata_vendor_example :
    (k : ℕ) × (◌≡◌ {A = Option ℕ} (some 0) (some k))
    × (is_some {A = ℕ} (some 0) ≡ true)
    × (is_some (vendor_url run_metadata.0 k) ≡ true)
verify_fips_validation_metadata_vendor_example =
    verify_fips_validation_metadata_vendor tree_json test_server 3 registered (some 0) (some 0) []
      run_metadata.0 run_metadata.1 run_metadata.2
