-- ===== src/Env/Reach.antt =====
-- Every call keeps the invariant of the tables.
use libamvp.Common.{◌||◌, if-both, is_some}
use libamvp.Env.Types.{Env, empty_env}
use libamvp.Env.Tables.{module_set_type_version_desc, find_module}
use libamvp.Env.Valid.{IsValid, empty_env-IsValid}
use libamvp.Env.Ops.{
  EnvOp, add_vendor, add_module, add_oe, add_dependency, set_value, link, set_address, describe,
  after, Reaches, here, step,
}
use libamvp.Env.Keeping.{KeepsValid}
use libamvp.Env.Keeping.Linked.{
  dependency_new-IsValid, dependency_set_field-IsValid, oe_new-IsValid, oe_set_dependency-IsValid,
}
use libamvp.Env.Keeping.Vendored.{
  keeps_vendor_id, vendor_new-IsValid, module_new-IsValid, vendors_modified-IsValid,
  describe_module-IsValid,
}

pub after-IsValid : (op : EnvOp) (env : Env) → IsValid env → IsValid (after op env)
unfolding after module_set_type_version_desc
after-IsValid (add_vendor id name) env v = vendor_new-IsValid env id name v
after-IsValid (add_module id name) env v = module_new-IsValid env id name v
after-IsValid (add_oe id name) env v = oe_new-IsValid env id name v
after-IsValid (add_dependency id) env v = dependency_new-IsValid env id v
after-IsValid (set_value field id value) env v = dependency_set_field-IsValid env field id value v
after-IsValid (link oe_id dependency_id) env v = oe_set_dependency-IsValid env oe_id dependency_id v
after-IsValid (set_address k given) env v =
    vendors_modified-IsValid env k _ (keeps_vendor_id given) v
after-IsValid (describe id type version description) env v =
    if-both KeepsValid (is_some type || is_some version || is_some description)
      (describe_module-IsValid env type version description (find_module env id) v) v

-- Whatever calls were made from the empty tables, and whatever they returned: no table is past its
-- capacity, its ids are different from each other and from 0, every link of an environment leads
-- to a dependency and every vendor of a module to a vendor.
pub Reaches-IsValid : (env : Env) → Reaches empty_env env → IsValid env
Reaches-IsValid env here = empty_env-IsValid
Reaches-IsValid env (step {m} r op e) = rw e (after-IsValid op m (Reaches-IsValid m r))
