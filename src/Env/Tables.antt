-- ===== src/Env/Tables.antt =====
-- The functions of src/amvp_operating_env.c that fill the tables. Allocations succeed, and the
-- context is not NULL. Whether a string is copied does not depend on the field that takes it.
use libamvp.Common.{
  ℕ, ◌+◌, Bool, false, ◌||◌, Option, none, some, List, [], ◌∷◌, ◌++◌, ◌==◌, if◌then◌else◌, length,
  replicate, get_elem?, modify, is_some,
}
use libamvp.Result.{Result, success, invalid_arg, missing_arg, unsupported_op, is_success}
use libamvp.SafeC.Errno.{CStr}
use libamvp.SafeC.Copy.{strcpy_s}
use libamvp.Util.StringList.{string_fits, word_of}
use libamvp.Env.Types.{
  Field, Address, Vendor, Module, Dependency, Oe, Env, oe_str_max, vendors_max, modules_max,
  dependencies_max, oes_max, new_vendor, new_module, new_dependency, new_oe,
}

-- A string of 257 zeros, or cleared to them, takes the copy.
unfoldable pub copy_oe_string : Field → Option CStr → Result × Field
unfolding string_fits
copy_oe_string dest none = (missing_arg, dest)
copy_oe_string dest (some src) =
    let space = some (replicate (oe_str_max + 1) 0) in
    if string_fits src oe_str_max
    then (success, word_of (strcpy_s space (oe_str_max + 1) (some src)))
    else (invalid_arg, dest)

-- The index of the first entry with the id, from `k` on.
unfoldable pub find_from : {A : Type 0} → (A → ℕ) → ℕ → ℕ → List A → Option ℕ
find_from id_of id k [] = none
find_from id_of id k (x ∷ xs) = if id == id_of x then some k else find_from id_of id (k + 1) xs

-- No entry has the id 0.
unfoldable pub find_entry : {A : Type 0} → (A → ℕ) → ℕ → List A → Option ℕ
unfolding find_from
find_entry id_of id xs = if id == 0 then none else find_from id_of id 0 xs

unfoldable pub find_dependency : Env → ℕ → Option ℕ
unfolding find_entry
find_dependency env id = find_entry (λ (d : Dependency). d.id) id env.dependencies

unfoldable pub find_oe : Env → ℕ → Option ℕ
unfolding find_entry
find_oe env id = find_entry (λ (o : Oe). o.id) id env.oes

unfoldable pub find_vendor : Env → ℕ → Option ℕ
unfolding find_entry
find_vendor env id = find_entry (λ (v : Vendor). v.id) id env.vendors

unfoldable pub find_module : Env → ℕ → Option ℕ
unfolding find_entry
find_module env id = find_entry (λ (m : Module). m.id) id env.modules

-- The test for an entry with the same id.
unfoldable pub has_id : {A : Type 0} → (A → ℕ) → ℕ → List A → Bool
has_id id_of id [] = false
has_id id_of id (x ∷ xs) = id == id_of x || has_id id_of id xs

-- A full table is reported as a success.
unfoldable pub dependency_new : Env → ℕ → Result × Env
unfolding has_id
dependency_new env id =
    if length env.dependencies == dependencies_max
    then (success, env)
    else (if id == 0 || has_id (λ (d : Dependency). d.id) id env.dependencies
        then (invalid_arg, env)
        else (success, record env { dependencies = env.dependencies ++ (new_dependency id ∷ []) }))

pub data DependencyField : Type 0 where
  field_type field_name field_desc field_man field_version field_family : DependencyField
  field_series : DependencyField

abbrev pub dependency_field : DependencyField → Dependency → Field
dependency_field field_type d = d.type
dependency_field field_name d = d.name
dependency_field field_desc d = d.description
dependency_field field_man d = d.manufacturer
dependency_field field_version d = d.version
dependency_field field_family d = d.family
dependency_field field_series d = d.series

abbrev pub put_dependency_field : DependencyField → Field → Dependency → Dependency
put_dependency_field field_type v d = record d { type = v }
put_dependency_field field_name v d = record d { name = v }
put_dependency_field field_desc v d = record d { description = v }
put_dependency_field field_man v d = record d { manufacturer = v }
put_dependency_field field_version v d = record d { version = v }
put_dependency_field field_family v d = record d { family = v }
put_dependency_field field_series v d = record d { series = v }

-- The copy into the field of a dependency; one that fails leaves the field.
unfoldable pub set_found : Env → DependencyField → Option CStr → Option ℕ → Result × Env
unfolding copy_oe_string
set_found env field value none = (invalid_arg, env)
set_found env field value (some k) = (
  (copy_oe_string none value).0,
  record env {
    dependencies = modify env.dependencies k (λ (d : Dependency).
        put_dependency_field field (copy_oe_string (dependency_field field d) value).1 d);
  },
)

unfoldable pub dependency_set_field : Env → DependencyField → ℕ → Option CStr → Result × Env
unfolding set_found find_dependency
dependency_set_field env field dep_id value =
    if dep_id == 0
    then (invalid_arg, env)
    else set_found env field value (find_dependency env dep_id)

-- A name that does not fit leaves the new entry without a name.
unfoldable pub oe_new : Env → ℕ → Option CStr → Result × Env
unfolding has_id copy_oe_string
oe_new env id none =
    if length env.oes == oes_max
    then (unsupported_op, env)
    else (if id == 0 then (invalid_arg, env) else (missing_arg, env))
oe_new env id (some name) =
    let (rv, copied) = copy_oe_string none (some name) in
    if length env.oes == oes_max
    then (unsupported_op, env)
    else (if id == 0 || has_id (λ (o : Oe). o.id) id env.oes
        then (invalid_arg, env)
        else (rv, record env { oes = env.oes ++ (record (new_oe id) { name = copied } ∷ []) }))

-- The environment `o` at the index `k` is linked to the dependency at the index `d`.
unfoldable pub link_dependency : Env → ℕ → ℕ → Option Oe → Result × Env
link_dependency env k d none = (invalid_arg, env)
link_dependency env k d (some o) =
    if length o.deps == dependencies_max then (unsupported_op, env) else (
      success,
      record env { oes = modify env.oes k (λ (x : Oe). record x { deps = x.deps ++ (d ∷ []) }) },
    )

unfoldable pub link_found : Env → Option ℕ → Option ℕ → Result × Env
unfolding link_dependency
link_found env none d = (invalid_arg, env)
link_found env (some k) none = (invalid_arg, env)
link_found env (some k) (some d) = link_dependency env k d (get_elem? env.oes k)

unfoldable pub oe_set_dependency : Env → ℕ → ℕ → Result × Env
unfolding link_found find_oe find_dependency
oe_set_dependency env oe_id dependency_id =
    link_found env (find_oe env oe_id) (find_dependency env dependency_id)

unfoldable pub vendor_new : Env → ℕ → Option CStr → Result × Env
unfolding has_id copy_oe_string
vendor_new env id name =
    let (rv, copied) = copy_oe_string none name in
    if length env.vendors == vendors_max
    then (unsupported_op, env)
    else (if id == 0 || has_id (λ (v : Vendor). v.id) id env.vendors then (invalid_arg, env) else (
      rv,
      record env { vendors = env.vendors ++ (record (new_vendor id) { name = copied } ∷ []) },
    ))

-- An optional string is copied unless an earlier copy failed.
unfoldable pub copy_given :
    {A : Type 0} → (A → Field) → (Field → A → A) → Option CStr → Result × A → Result × A
unfolding copy_oe_string
copy_given read write none (rv, a) = (rv, a)
copy_given read write (some s) (rv, a) =
    let (r, copied) = copy_oe_string (read a) (some s) in
    if is_success rv then (r, write copied a) else (rv, a)

abbrev pub address_copies : Address → Address → Result × Address
address_copies given a =
    copy_given (λ x. x.postal_code) (λ v x. record x { postal_code = v }) given.postal_code
      (copy_given (λ x. x.country) (λ v x. record x { country = v }) given.country
        (copy_given (λ x. x.region) (λ v x. record x { region = v }) given.region
          (copy_given (λ x. x.locality) (λ v x. record x { locality = v }) given.locality
            (copy_given (λ x. x.street_3) (λ v x. record x { street_3 = v }) given.street_3
              (copy_given (λ x. x.street_2) (λ v x. record x { street_2 = v }) given.street_2
                (copy_given (λ x. x.street_1) (λ v x. record x { street_1 = v }) given.street_1
                  (success, a)))))))

-- The seven strings are those of `given`, whose `url` is not used.
unfoldable pub vendor_add_address : Vendor → Address → Result × Vendor
unfolding copy_given
vendor_add_address vendor given =
    let (rv, a) = address_copies given vendor.address in
    if is_some given.street_1
      || is_some given.street_2
      || is_some given.street_3
      || is_some given.locality
      || is_some given.region
      || is_some given.country
      || is_some given.postal_code
    then (rv, record vendor { address = a })
    else (invalid_arg, vendor)

-- The new module's vendor is looked up by the id of the module; without it the module stays as it
-- is, with no name.
unfoldable pub attach_vendor : Env → ℕ → Option CStr → Option ℕ → Result × Env
unfolding copy_oe_string
attach_vendor env id name none =
    (invalid_arg, record env { modules = env.modules ++ (new_module id ∷ []) })
attach_vendor env id name (some v) =
    let (rv, copied) = copy_oe_string none name in
    (
      rv,
      record env {
        modules = env.modules ++ (record (new_module id) { name = copied; vendor = some v } ∷ []);
      },
    )

unfoldable pub module_new : Env → ℕ → Option CStr → Result × Env
unfolding has_id attach_vendor find_vendor
module_new env id name =
    if length env.modules == modules_max
    then (unsupported_op, env)
    else (if id == 0 || has_id (λ (m : Module). m.id) id env.modules
        then (invalid_arg, env)
        else attach_vendor env id name (find_vendor env id))

abbrev pub module_copies : Option CStr → Option CStr → Option CStr → Module → Result × Module
module_copies type version description m =
    copy_given (λ x. x.description) (λ v x. record x { description = v }) description
      (copy_given (λ x. x.version) (λ v x. record x { version = v }) version
        (copy_given (λ x. x.type) (λ v x. record x { type = v }) type (success, m)))

unfoldable pub describe_module :
    Env → Option CStr → Option CStr → Option CStr → Option ℕ → Result × Env
unfolding copy_given
describe_module env type version description none = (invalid_arg, env)
describe_module env type version description (some k) = (
  (module_copies type version description (new_module 0)).0,
  record env {
    modules = modify env.modules k (λ (m : Module). (module_copies type version description m).1);
  },
)

unfoldable pub module_set_type_version_desc :
    Env → ℕ → Option CStr → Option CStr → Option CStr → Result × Env
unfolding describe_module find_module
module_set_type_version_desc env id type version description =
    if is_some type || is_some version || is_some description
    then describe_module env type version description (find_module env id)
    else (invalid_arg, env)
