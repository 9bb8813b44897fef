-- ===== src/Env/Loading.antt =====
-- The parts of the metadata file of src/amvp_operating_env.c that hold modules and operating
-- environments: match_dependency and the functions amvp_oe_metadata_parse_oe_dependencies, _oe,
-- _oes, _module and _modules. The context is not NULL, and the arguments are what the members of
-- an object are.
use libamvp.Common.{
  ℕ, zero, suc, ◌+◌, Bool, false, ◌||◌, Option, none, some, List, [], ◌∷◌, ◌==◌, if◌then◌else◌,
  is_some, codes,
}
use libamvp.Result.{Result, success, invalid_arg, json_err, is_success}
use libamvp.SafeC.Errno.{CStr}
use libamvp.Protocol.Json.{Json}
use libamvp.Env.Types.{Field, Env, Dependency, new_dependency}
use libamvp.Env.Tables.{
  dependency_new, DependencyField, field_type, field_name, field_desc, field_man, field_version,
  field_family, field_series, dependency_field, dependency_set_field, find_dependency, oe_new,
  oe_set_dependency, module_new, module_set_type_version_desc,
}
use libamvp.Env.Pages.{compare_dependencies}

-- The tables and the static counters of the ids.
pub record Loader : Type 0 where
  pub env : Env
  pub dependency_id : ℕ
  pub oe_id : ℕ
  pub module_id : ℕ

-- The rest runs after a success.
unfoldable pub then_load : {A : Type 0} → Result × A → (A → Result × A) → Result × A
then_load (rv, a) next = let rest = next a in if is_success rv then rest else (rv, a)

unfoldable pub matches : Dependency → List Dependency → Bool
matches dep [] = false
matches dep (d ∷ ds) = compare_dependencies dep d || matches dep ds

-- The id that is returned is that of the argument.
unfoldable pub match_dependency : Env → Dependency → ℕ
unfolding matches
match_dependency env dep = if matches dep env.dependencies then dep.id else 0

unfoldable pub set_given : ℕ → DependencyField → Field → Env → Result × Env
set_given id field none env = (success, env)
set_given id field (some s) env = dependency_set_field env field id (some s)

unfoldable pub set_fields : ℕ → Dependency → List DependencyField → Env → Result × Env
unfolding set_given then_load
set_fields id dep [] env = (success, env)
set_fields id dep (f ∷ fs) env =
    then_load (set_given id f (dependency_field f dep) env) (set_fields id dep fs)

abbrev pub all_fields : List DependencyField
all_fields =
    field_type ∷ field_name ∷ field_desc ∷ field_man ∷ field_version ∷ field_family ∷ field_series
    ∷ []

unfoldable pub fill_found : Dependency → ℕ → Option ℕ → Env → Result × Env
unfolding set_fields
fill_found dep id none env = (invalid_arg, env)
fill_found dep id (some k) env = set_fields id dep all_fields env

abbrev pub fill_new : Dependency → ℕ → Env → Result × Env
fill_new dep id env = fill_found dep id (find_dependency env id) env

-- The new dependency is linked, and the result of that is not read.
unfoldable pub link_created : ℕ → Loader → Result × Env → Result × Loader
link_created oe_id l (rv, env) =
    if is_success rv
    then (
      success,
      record l {
        env = (oe_set_dependency env oe_id l.dependency_id).1;
        dependency_id = l.dependency_id + 1;
      },
    )
    else (rv, record l { env = env })

unfoldable pub load_dependency : ℕ → Dependency → Loader → Result × Loader
unfolding link_created fill_found then_load match_dependency
load_dependency oe_id dep l =
    let id = match_dependency l.env dep in
    let made = then_load (dependency_new l.env l.dependency_id) (fill_new dep l.dependency_id) in
    if id == 0
    then link_created oe_id l made
    else (success, record l { env = (oe_set_dependency l.env oe_id id).1 })

module _ {Value Array Object : Type 0} (json : Json Value Array Object) where
  open json use {get_count, get_object, get_string, get_array_of}

  abbrev pub string_of : Option Object → CStr → Field
  string_of none name = none
  string_of (some obj) name = get_string obj name

  unfoldable pub given_dependency : Option Object → Dependency
  given_dependency obj = record (new_dependency 0) {
    type = string_of obj (codes "type");
    name = string_of obj (codes "name");
    description = string_of obj (codes "description");
    family = string_of obj (codes "family");
    series = string_of obj (codes "series");
    manufacturer = string_of obj (codes "manufacturer");
    version = string_of obj (codes "version");
  }

  unfoldable pub load_entry : ℕ → Dependency → Loader → Result × Loader
  unfolding load_dependency
  load_entry oe_id dep l =
      if is_some dep.type || is_some dep.name || is_some dep.description
      then load_dependency oe_id dep l
      else (json_err, l)

  unfoldable pub load_dependencies : ℕ → ℕ → ℕ → Array → Loader → Result × Loader
  unfolding load_entry given_dependency then_load
  load_dependencies oe_id zero i arr l = (success, l)
  load_dependencies oe_id (suc n) i arr l =
      then_load (load_entry oe_id (given_dependency (get_object arr i)) l)
        (load_dependencies oe_id n (i + 1) arr)

  unfoldable pub parse_oe_dependencies : ℕ → Option Array → Loader → Result × Loader
  unfolding load_dependencies
  parse_oe_dependencies oe_id none l = (json_err, l)
  parse_oe_dependencies oe_id (some arr) l =
      if get_count arr == 0 then (json_err, l) else load_dependencies oe_id (get_count arr) 0 arr l

  abbrev pub on_env : Loader → Result × Env → Result × Loader
  on_env l (rv, env) = (rv, record l { env = env })

  unfoldable pub parse_oe_named : Object → Option CStr → Loader → Result × Loader
  unfolding parse_oe_dependencies then_load
  parse_oe_named obj none l = (invalid_arg, record l { oe_id = l.oe_id + 1 })
  parse_oe_named obj (some name) l =
      then_load (on_env (record l { oe_id = l.oe_id + 1 }) (oe_new l.env l.oe_id (some name)))
        (parse_oe_dependencies l.oe_id (get_array_of obj (codes "dependencies")))

  unfoldable pub parse_oe : Option Object → Loader → Result × Loader
  unfolding parse_oe_named
  parse_oe none l = (json_err, l)
  parse_oe (some obj) l = parse_oe_named obj (get_string obj (codes "name")) l

  unfoldable pub parse_module_named : Object → Option CStr → Loader → Result × Loader
  unfolding then_load
  parse_module_named obj none l = (invalid_arg, record l { module_id = l.module_id + 1 })
  parse_module_named obj (some name) l =
      let describe = λ (env : Env).
        module_set_type_version_desc env l.module_id (get_string obj (codes "type"))
          (get_string obj (codes "version")) (get_string obj (codes "description")) in
      on_env (record l { module_id = l.module_id + 1 })
        (then_load (module_new l.env l.module_id (some name)) describe)

  unfoldable pub parse_module : Option Object → Loader → Result × Loader
  unfolding parse_module_named
  parse_module none l = (json_err, l)
  parse_module (some obj) l = parse_module_named obj (get_string obj (codes "name")) l

  -- The loops of the two arrays.
  unfoldable pub parse_each :
      (Option Object → Loader → Result × Loader) → ℕ → ℕ → Array → Loader → Result × Loader
  unfolding then_load
  parse_each parse zero i arr l = (success, l)
  parse_each parse (suc n) i arr l =
      then_load (parse (get_object arr i) l) (parse_each parse n (i + 1) arr)

  unfoldable pub parse_oes : Option Array → Loader → Result × Loader
  unfolding parse_each parse_oe
  parse_oes none l = (json_err, l)
  parse_oes (some arr) l = parse_each parse_oe (get_count arr) 0 arr l

  unfoldable pub parse_modules : Option Array → Loader → Result × Loader
  unfolding parse_each parse_module
  parse_modules none l = (json_err, l)
  parse_modules (some arr) l = parse_each parse_module (get_count arr) 0 arr l
