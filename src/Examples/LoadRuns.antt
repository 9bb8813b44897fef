-- ===== src/Examples/LoadRuns.antt =====
-- Runs of the parsing of the metadata file of src/amvp_operating_env.c.
use libamvp.Common.{◌+◌, ◌≡◌, refl, true, none, some, List, [], ◌∷◌, arith, codes, length}
use libamvp.Result.{is_success}
use libamvp.SafeC.Compare.{strnlen_s, strnlen, strcmp_s, strcmp}
use libamvp.Util.StringList.{string_fits}
use libamvp.Env.Types.{Env, new_dependency, new_module, new_oe, empty_env}
use libamvp.Env.Tables.{
  dependency_new, has_id, dependency_set_field, set_found, copy_oe_string, find_dependency,
  find_entry, find_from, oe_set_dependency, link_found, link_dependency, find_oe,
}
use libamvp.Env.Pages.{compare_dependencies, equal_fields}
use libamvp.Env.Valid.{IsValid, empty_env-IsValid}
use libamvp.Env.Loading.{
  Loader, then_load, match_dependency, matches, set_given, set_fields, fill_found, link_created,
  load_dependency, given_dependency, load_entry, load_dependencies, parse_oe_dependencies,
  parse_modules, parse_oes,
}
use libamvp.Env.Loaded.{parse_metadata-IsValid}
use libamvp.Env.Choice.{Fips}
use libamvp.Env.Sharing.{parse_oe_dependencies_grows}
use libamvp.Examples.TestServer.{Tree, entry, page, tree_json}

abbrev start : Loader
start = record { env = empty_env; dependency_id = 1; oe_id = 1; module_id = 1 }

abbrev oe_entries : List Tree
oe_entries = page (((codes "name", codes "linux") ∷ [], []) ∷ []) none ∷ []

parse_metadata-IsValid_example :
    IsValid (parse_modules tree_json (some oe_entries) start).1.env
    × IsValid
        (then_load
          (parse_modules tree_json (some oe_entries) start)
          (parse_oes tree_json (some oe_entries))).1.env
parse_metadata-IsValid_example =
    parse_metadata-IsValid tree_json (some oe_entries) (some oe_entries) start empty_env-IsValid

-- A table that has the dependency already.
abbrev stocked : Loader
stocked = record start {
  env = record empty_env {
    dependencies = record (new_dependency 1) { name = some (codes "lib") } ∷ [];
  };
  dependency_id = 2;
}

abbrev listed : List Tree
listed = entry ((codes "name", codes "lib") ∷ []) [] ∷ []

read_again : is_success (parse_oe_dependencies tree_json 1 (some listed) stocked).0 ≡ true
unfolding parse_oe_dependencies load_dependencies load_entry given_dependency load_dependency
    link_created match_dependency matches fill_found set_fields set_given then_load dependency_new
    has_id dependency_set_field set_found copy_oe_string find_dependency find_entry find_from
    oe_set_dependency link_found link_dependency find_oe string_fits strnlen_s strnlen
    compare_dependencies equal_fields strcmp_s strcmp
read_again = refl

parse_oe_dependencies_grows_example :
    length (parse_oe_dependencies tree_json 1 (some listed) stocked).1.env.dependencies ≡ 1 + 1
parse_oe_dependencies_grows_example =
    parse_oe_dependencies_grows tree_json 1 listed stocked (omega arith) read_again

abbrev two_tables : Env
two_tables = record empty_env { modules = new_module 4 ∷ []; oes = new_oe 5 ∷ [] }

abbrev unchosen : Fips
unchosen = record { metadata_loaded = true; module_at = none; oe_at = some 0 }
