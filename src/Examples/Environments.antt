-- ===== src/Examples/Environments.antt =====
-- Runs of the tables of src/amvp_operating_env.c and of their queries.
use libamvp.Common.{
  ℕ, ◌<◌, ◌≡◌, refl, sym, ◌∙◌, Bool, true, false, none, some, List, [], ◌∷◌, ◌==◌, arith, codes,
  get_elem?, is_some, if◌then◌else◌, All, Any, if-both,
}
use libamvp.Result.{success}
use libamvp.SafeC.Errno.{CStr}
use libamvp.SafeC.Compare.{head_byte, strnlen_s, strnlen, strcmp_s, strcmp}
use libamvp.SafeC.Copy.{strcpy_s, overwrite, padded}
use libamvp.Util.StringList.{kv_list_append, string_fits, kv_node, append_node}
use libamvp.Env.Types.{
  Status, Env, Dependency, Oe, complete, partial, incomplete, new_dependency, new_oe, empty_env,
}
use libamvp.Env.Tables.{
  field_name, oe_new, oe_set_dependency, dependency_new, has_id, link_found, link_dependency,
  find_oe, find_dependency, find_entry, find_from, copy_oe_string,
}
use libamvp.Env.View.{TableOp, create, set, performs, specs, view}
use libamvp.Env.Refinement.{performs_refines}
use libamvp.Env.Ops.{add_dependency, add_oe, link, after, Reaches, here, step}
use libamvp.Env.Valid.{IsValid}
use libamvp.Env.Reach.{Reaches-IsValid}
use libamvp.Env.Copies.{copied_url_lem}
use libamvp.Env.Pages.{
  compare_dependencies, match_dependencies_page, match_oes_page, onwards, found, copied_url,
  get_obj_from_rsp, first_object, links_page, next_page, dependencies_value, dependencies_page,
  dependencies_in, dependencies_loop, dependency_entry, equal_fields, read_dependency, forget_read,
  found_page, oes_value, oes_page, oes_in, oes_loop, oe_entry, oe_urls, same_urls, same_url,
}
use libamvp.Env.Query.{
  query_dependency, start_query, query_pages, after_page, go_to, dependency_answer,
  dependency_parameters, add_parameter, first_endpoint,
}
use libamvp.Env.Verify.{
  with_status, verify_loop, after_query, query_linked, verify_fips_oe, verify_oe_at,
  after_dependencies, verify_linked, verify_fips_oe_dependencies, all_some, linked_urls,
}
use libamvp.Env.Matching.{IsUnmatched, match_dependencies_page_stale}
use libamvp.Env.OeMatching.{IsOeEntry, match_oes_page-found}
use libamvp.Env.Paging.{body_links}
use libamvp.Env.Ending.{IsPaged}
use libamvp.Env.Verifying.{verify_fips_oe_ends}
use libamvp.Env.Statuses.{HasUrl, HasNoUrl, verify_fips_oe_dependencies_status}
use libamvp.Env.Querying.{verify_fips_oe_order}
use libamvp.Examples.TestServer.{Tree, entry, stale_page, tree_json, test_server}

abbrev table_ops : List TableOp
table_ops = create 7 ∷ set field_name 7 (some (codes "lib")) ∷ create 7 ∷ []

performs_refines_example :
    ((performs table_ops empty_env).0 ≡ (specs table_ops (view empty_env)).0)
    × (view (performs table_ops empty_env).1 ≡ (specs table_ops (view empty_env)).1)
performs_refines_example = performs_refines table_ops empty_env (omega arith) (omega arith)

abbrev one_dependency : Env
one_dependency = after (add_dependency 7) empty_env

abbrev linked : Env
linked = after (link 3 7) (after (add_oe 3 (some (codes "linux"))) one_dependency)

linked-Reaches : Reaches empty_env linked
linked-Reaches =
    step (step (step here (add_dependency 7) refl) (add_oe 3 (some (codes "linux"))) refl)
      (link 3 7) refl

Reaches-IsValid_example : IsValid linked
Reaches-IsValid_example = Reaches-IsValid linked linked-Reaches

abbrev rank : CStr → ℕ
rank endpoint = if head_byte endpoint == b'2' then 0 else 1

links_first : body_links tree_json (some (codes "1")) ≡ onwards (some (codes "2"))
unfolding get_obj_from_rsp first_object links_page next_page
links_first = rw (copied_url_lem (codes "2") (omega arith) (omega arith)) refl

links_last : body_links tree_json (some (codes "2")) ≡ onwards none
unfolding get_obj_from_rsp first_object links_page next_page
links_last = refl

rank_decreases :
    (last : Bool) (next : CStr)
    → body_links tree_json (some (if last then codes "2" else codes "1")) ≡ onwards (some next)
    → rank next < (if last then 0 else 1)
rank_decreases true next e = let ended = sym links_last ∙ e in cc
rank_decreases false next e =
    let more = sym links_first ∙ e in
    let same : codes "2" ≡ next = cc in rw (sym same) (omega arith)

test_server-IsPaged : IsPaged tree_json test_server rank 2
test_server-IsPaged = record {
  descends = λ endpoint params w next t. rank_decreases (head_byte endpoint == b'2') next;
  short = λ endpoint. if-both (λ n. n < 2) (head_byte endpoint == b'2') (omega arith) (omega arith);
}

verify_fips_oe_ends_example : is_some (verify_fips_oe test_server tree_json 2 linked 0 []) ≡ true
unfolding after oe_new oe_set_dependency dependency_new has_id link_found link_dependency find_oe
    find_dependency find_entry find_from copy_oe_string string_fits
verify_fips_oe_ends_example =
    verify_fips_oe_ends tree_json test_server rank 2 test_server-IsPaged linked 0 []
      (Reaches-IsValid linked linked-Reaches) (omega arith)

abbrev library : Dependency
library = record (new_dependency 7) { name = some (codes "lib") }

abbrev compiler : Dependency
compiler = record (new_dependency 8) {
  name = some (codes "cc");
  version = some (codes "9");
  url = some (codes "/8");
}

match_dependencies_page_stale_example :
    IsUnmatched (match_dependencies_page tree_json library (some (codes "3")))
unfolding get_obj_from_rsp first_object
match_dependencies_page_stale_example =
    match_dependencies_page_stale tree_json library (some (codes "3")) stale_page stale_page
      (entry ((codes "name", codes "lib") ∷ (codes "series", codes "1") ∷ []) []
        ∷ entry ((codes "name", codes "lib") ∷ (codes "url", codes "/9") ∷ []) []
        ∷ [])
      (entry ((codes "name", codes "lib") ∷ (codes "series", codes "1") ∷ []) []) (codes "1") refl
      refl refl refl refl refl

run_partial :
    (after' : List Dependency) × (w : CStr) × (verify_fips_oe_dependencies test_server tree_json 3
        (0 ∷ 1 ∷ [])
        (record library { version = some (codes "1") } ∷ compiler ∷ [])
        []
      ≡ some (success, partial, after', w))
unfolding verify_fips_oe_dependencies verify_loop after_query query_linked query_dependency
    start_query query_pages after_page go_to dependency_answer dependency_parameters add_parameter
    first_endpoint kv_list_append string_fits kv_node append_node strnlen_s strnlen
    match_dependencies_page dependencies_value dependencies_page dependencies_in dependencies_loop
    dependency_entry compare_dependencies equal_fields read_dependency forget_read found_page
    links_page next_page get_obj_from_rsp first_object copied_url strcpy_s overwrite padded strcmp_s
    strcmp
run_partial = (_, _, refl)

verify_fips_oe_dependencies_status_example :
    (partial ≡ complete → (0 < 2) × All (HasUrl run_partial.0) (0 ∷ 1 ∷ []))
    × (partial ≡ incomplete → All (HasNoUrl run_partial.0) (0 ∷ 1 ∷ []))
    × (partial ≡ partial → Any (HasUrl run_partial.0) (0 ∷ 1 ∷ []))
verify_fips_oe_dependencies_status_example =
    verify_fips_oe_dependencies_status test_server tree_json 3 (0 ∷ 1 ∷ [])
      (record library { version = some (codes "1") } ∷ compiler ∷ []) [] partial run_partial.0
      run_partial.1 run_partial.2

abbrev built : Oe
built = record (new_oe 3) { deps = 0 ∷ [] }

abbrev unfound : Env
unfound = record empty_env {
  dependencies = record library { version = some (codes "1") } ∷ [];
  oes = built ∷ [];
}

run_oe :
    (env' : Env) × (w : CStr) × (verify_fips_oe test_server tree_json 3 unfound 0 []
      ≡ some (success, env', w))
    × (all_some (linked_urls env'.dependencies built.deps) ≡ false)
unfolding verify_fips_oe verify_oe_at after_dependencies verify_linked all_some
    verify_fips_oe_dependencies verify_loop after_query query_linked query_dependency start_query
    query_pages after_page go_to add_parameter first_endpoint found_page links_page next_page
    get_obj_from_rsp first_object copied_url strcpy_s overwrite padded strcmp_s strcmp strnlen
    kv_list_append strnlen_s match_dependencies_page
run_oe = (_, _, refl, refl)

verify_fips_oe_order_example :
    (status : Status) × (verify_fips_oe_dependencies test_server tree_json 3 built.deps
        unfound.dependencies []
      ≡ some (success, status, run_oe.0.dependencies, run_oe.1))
    × (get_elem? run_oe.0.oes 0 ≡ some (with_status built status))
verify_fips_oe_order_example =
    verify_fips_oe_order test_server tree_json 3 unfound 0 [] built success run_oe.0 run_oe.1 refl
      run_oe.2 run_oe.3

oe_page_run :
    match_oes_page tree_json (some (codes "/8") ∷ []) (some (codes "2"))
    ≡ found (copied_url (codes "/9"))
unfolding match_oes_page oes_value oes_page oes_in oes_loop oe_entry oe_urls same_urls same_url
    found_page get_obj_from_rsp first_object strcmp_s strcmp
oe_page_run = refl

match_oes_page-found_example :
    (val : Tree) × (obj : Tree) × (arr : List Tree) × (tree_json.parse_string (some (codes "2"))
      ≡ some val)
    × (get_obj_from_rsp tree_json val ≡ some obj)
    × (tree_json.get_array_of obj (codes "data") ≡ some arr)
    × IsOeEntry tree_json (some (codes "/8") ∷ []) arr (copied_url (codes "/9"))
unfolding all_some
match_oes_page-found_example =
    match_oes_page-found tree_json (some (codes "/8") ∷ []) (some (codes "2"))
      (copied_url (codes "/9")) refl oe_page_run
