-- ===== src/Env/Verify.antt =====
-- verify_fips_oe_dependencies and verify_fips_oe of src/amvp_operating_env.c. `none` is a link that
-- leads to no entry, or a query that has not ended on its fuel.
use libamvp.Common.{
  ℕ, Bool, true, false, ◌&&◌, Option, none, some, List, [], ◌∷◌, map, if◌then◌else◌, is_some,
  get_elem?, modify,
}
use libamvp.Result.{Result, success, is_success}
use libamvp.Protocol.Json.{Json}
use libamvp.Env.Types.{Field, Status, complete, partial, incomplete, Dependency, Oe, Env}
use libamvp.Env.Query.{Server, query_dependency, query_oe}

-- The URL of the dependency that a link leads to.
abbrev pub url_in : Option Dependency → Field
url_in none = none
url_in (some dep) = dep.url

abbrev pub linked_url : List Dependency → ℕ → Field
linked_url table d = url_in (get_elem? table d)

abbrev pub linked_urls : List Dependency → List ℕ → List Field
linked_urls table deps = map (linked_url table) deps

unfoldable pub all_some : List Field → Bool
all_some [] = true
all_some (f ∷ fs) = is_some f && all_some fs

-- The result, the status, the table and the state after the loop over the dependencies.
abbrev pub Verified : Type 0 → Type 0
Verified W = Result × Status × List Dependency × W

abbrev pub Rest : Type 0 → Type 0
Rest W = Bool → Status → List Dependency → W → Option (Verified W)

unfoldable pub after_query :
    {W : Type 0}
    → ℕ
    → Bool
    → Status
    → List Dependency
    → Option (Result × Dependency × W)
    → Rest W
    → Option (Verified W)
after_query d all_incomplete status table none rest = none
after_query d all_incomplete status table (some (rv, dep, w)) rest =
    let queried = modify table d (λ (x : Dependency). dep) in
    if is_success rv
    then rest (if is_some dep.url then false else all_incomplete)
        (if is_some dep.url then status else partial) queried w
    else some (rv, status, queried, w)

abbrev pub with_status : Oe → Status → Oe
with_status oe s = record oe { status = some s }

-- The table of dependencies, and the operating environment at `k` with its status.
abbrev pub with_table : Env → ℕ → Oe → Status → List Dependency → Env
with_table env k oe s table = record env {
  dependencies = table;
  oes = modify env.oes k (λ (x : Oe). with_status oe s);
}

module _ {W : Type 0} (server : Server W) {Value Array Object : Type 0}
    (json : Json Value Array Object) where
  unfoldable pub query_linked : ℕ → Option Dependency → W → Option (Result × Dependency × W)
  query_linked fuel none w = none
  query_linked fuel (some dep) w = query_dependency server json fuel dep w

  unfoldable pub verify_loop : ℕ → List ℕ → Rest W
  unfolding after_query query_linked
  verify_loop fuel [] all_incomplete status table w =
      some (success, if all_incomplete then incomplete else status, table, w)
  verify_loop fuel (d ∷ deps) all_incomplete status table w =
      after_query d all_incomplete status table (query_linked fuel (get_elem? table d) w)
        (verify_loop fuel deps)

  unfoldable pub verify_fips_oe_dependencies :
      ℕ → List ℕ → List Dependency → W → Option (Verified W)
  unfolding verify_loop
  verify_fips_oe_dependencies fuel deps table w = verify_loop fuel deps true complete table w

  unfoldable pub finish_oe : Env → ℕ → Option (Result × Oe × W) → Option (Result × Env × W)
  finish_oe env k none = none
  finish_oe env k (some (rv, oe, w)) =
      some (rv, record env { oes = modify env.oes k (λ (x : Oe). oe) }, w)

  -- The operating environment is queried when each of its dependencies has a URL.
  unfoldable pub verify_linked : ℕ → Env → ℕ → Oe → W → Option (Result × Env × W)
  unfolding finish_oe all_some
  verify_linked fuel env k oe w =
      let urls = linked_urls env.dependencies oe.deps in
      if all_some urls
      then finish_oe env k (query_oe server json fuel urls oe w)
      else some (success, env, w)

  unfoldable pub after_dependencies :
      ℕ → Env → ℕ → Oe → Option (Verified W) → Option (Result × Env × W)
  unfolding verify_linked
  after_dependencies fuel env k oe none = none
  after_dependencies fuel env k oe (some (rv, status, table, w)) =
      let env' = with_table env k oe status table in
      if is_success rv
      then verify_linked fuel env' k (with_status oe status) w
      else some (rv, env', w)

  unfoldable pub verify_oe_at : ℕ → Env → ℕ → Option Oe → W → Option (Result × Env × W)
  unfolding after_dependencies verify_fips_oe_dependencies
  verify_oe_at fuel env k none w = none
  verify_oe_at fuel env k (some oe) w =
      after_dependencies fuel env k oe (verify_fips_oe_dependencies fuel oe.deps env.dependencies w)

  -- `k` is the index of the operating environment `ctx->fips.oe`.
  unfoldable pub verify_fips_oe : ℕ → Env → ℕ → W → Option (Result × Env × W)
  unfolding verify_oe_at
  verify_fips_oe fuel env k w = verify_oe_at fuel env k (get_elem? env.oes k) w
