-- ===== src/Env/Query.antt =====
-- query_dependency and query_oe of src/amvp_operating_env.c: the pages of the server are searched
-- one after the other. Allocations succeed and the context is not NULL; `none` on fuel is a loop
-- that has not ended.
use libamvp.Common.{
  ℕ, zero, suc, Option, none, some, List, [], ◌++◌, ◌-◌, if◌then◌else◌, is_some, take, codes,
}
use libamvp.Result.{Result, success, is_success}
use libamvp.SafeC.Errno.{CStr}
use libamvp.Util.StringList.{KvList, kv_list_append}
use libamvp.Protocol.Json.{Json}
use libamvp.Env.Types.{Field, Dependency, Oe}
use libamvp.Env.Pages.{
  Page, failed, found, onwards, match_dependencies_page, match_oes_page, attr_url_max,
}

abbrev pub Params : Type 0
Params = List (Option CStr × Option CStr)

-- What the queries call or read: amvp_transport_get, which leaves the body in the state, the body
-- and the context's path segment.
pub record Server (W : Type 0) : Type 0 where
  pub transport_get : CStr → Params → W → Result × W
  pub curl_buf : W → Option CStr
  pub path_segment : W → CStr

-- A parameter is appended for a string that there is, unless an earlier one failed.
unfoldable pub add_parameter : CStr → Field → Result × KvList → Result × KvList
add_parameter key none (rv, kvs) = (rv, kvs)
add_parameter key (some value) (rv, kvs) =
    if is_success rv then kv_list_append kvs (some key) (some value) else (rv, kvs)

unfoldable pub dependency_parameters : Dependency → Result × KvList
unfolding add_parameter
dependency_parameters dep = add_parameter (codes "description[0]=eq:") dep.description (
    add_parameter (codes "name[0]=eq:") dep.name
      (add_parameter (codes "type[0]=eq:") dep.type (success, some [])))

abbrev pub params_of : KvList → Params
params_of none = []
params_of (some kvs) = kvs

-- `snprintf(first_endpoint, AMVP_ATTR_URL_MAX, "%s%s", ctx->path_segment, resource)`
unfoldable pub first_endpoint : CStr → CStr → CStr
first_endpoint path_segment resource = take (attr_url_max - 1) (path_segment ++ resource)

abbrev pub answered : {A B : Type 0} → (A → B) → Option A → Option B
answered f none = none
answered f (some a) = some (f a)

unfoldable pub go_to : {W : Type 0} → Page × W → (CStr → W → Option (Page × W)) → Option (Page × W)
go_to (failed rv, w) more = some (failed rv, w)
go_to (found url, w) more = some (found url, w)
go_to (onwards none, w) more = some (onwards none, w)
go_to (onwards (some endpoint), w) more = more endpoint w

module _ {W : Type 0} (server : Server W) where
  open server use {transport_get, curl_buf, path_segment}

  unfoldable pub after_page : (W → Page) → Result × W → Page × W
  after_page match_page (rv, w) = (if is_success rv then match_page w else failed rv, w)

  -- The loops of the two queries, with the search of a page as an argument; the parameters are
  -- sent with the first request only.
  unfoldable pub query_pages : (W → Page) → ℕ → Params → CStr → W → Option (Page × W)
  unfolding after_page go_to
  query_pages match_page zero params endpoint w = none
  query_pages match_page (suc fuel) params endpoint w =
      go_to (after_page match_page (transport_get endpoint params w))
        (query_pages match_page fuel [])

  unfoldable pub start_query : (W → Page) → ℕ → CStr → Result × KvList → W → Option (Page × W)
  unfolding query_pages first_endpoint
  start_query match_page fuel resource (rv, kvs) w =
      let pages =
        query_pages match_page fuel (params_of kvs) (first_endpoint (path_segment w) resource) w in
      if is_success rv then pages else some (failed rv, w)

  unfoldable pub dependency_answer : Dependency → Page × W → Result × Dependency × W
  dependency_answer dep (failed rv, w) = (rv, dep, w)
  dependency_answer dep (found url, w) = (success, record dep { url = url }, w)
  dependency_answer dep (onwards next, w) = (success, dep, w)

  unfoldable pub oe_answer : Oe → Page × W → Result × Oe × W
  oe_answer oe (failed rv, w) = (rv, oe, w)
  oe_answer oe (found url, w) = (success, record oe { url = url }, w)
  oe_answer oe (onwards next, w) = (success, oe, w)

  module _ {Value Array Object : Type 0} (json : Json Value Array Object) where
    -- query_dependency with no endpoint.
    unfoldable pub query_dependency : ℕ → Dependency → W → Option (Result × Dependency × W)
    unfolding start_query dependency_answer dependency_parameters
    query_dependency fuel dep w =
        let match_page = λ (v : W). match_dependencies_page json dep (curl_buf v) in
        let asked =
          start_query match_page fuel (codes "dependencies?") (dependency_parameters dep) w in
        if is_some dep.url then some (success, dep, w) else answered (dependency_answer dep) asked

    -- query_oe with no endpoint; the second argument has the URLs of the dependencies.
    unfoldable pub query_oe : ℕ → List Field → Oe → W → Option (Result × Oe × W)
    unfolding start_query oe_answer add_parameter
    query_oe fuel urls oe w =
        let match_page = λ (v : W). match_oes_page json urls (curl_buf v) in
        let parameters = add_parameter (codes "name[0]=eq:") oe.name (success, some []) in
        let asked = start_query match_page fuel (codes "oes?") parameters w in
        if is_some oe.url then some (success, oe, w) else answered (oe_answer oe) asked
