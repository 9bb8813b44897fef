-- ===== src/Env/Ops.antt =====
-- The calls that fill the tables (src/amvp_operating_env.c), as the steps of a state machine.
use libamvp.Common.{ℕ, ◌≡◌, Option, modify}
use libamvp.SafeC.Errno.{CStr}
use libamvp.Env.Types.{Env, Vendor, Address}
use libamvp.Env.Tables.{
  dependency_new, DependencyField, dependency_set_field, oe_new, oe_set_dependency, vendor_new,
  vendor_add_address, module_new, module_set_type_version_desc,
}

pub data EnvOp : Type 0 where
  add_vendor add_module add_oe : ℕ → Option CStr → EnvOp
  add_dependency : ℕ → EnvOp
  set_value : DependencyField → ℕ → Option CStr → EnvOp
  link : ℕ → ℕ → EnvOp
  set_address : ℕ → Address → EnvOp
  describe : ℕ → Option CStr → Option CStr → Option CStr → EnvOp

-- The tables after a call, whatever its result; an address belongs to the vendor at an index.
unfoldable pub after : EnvOp → Env → Env
after (add_vendor id name) env = (vendor_new env id name).1
after (add_module id name) env = (module_new env id name).1
after (add_oe id name) env = (oe_new env id name).1
after (add_dependency id) env = (dependency_new env id).1
after (set_value field id value) env = (dependency_set_field env field id value).1
after (link oe_id dependency_id) env = (oe_set_dependency env oe_id dependency_id).1
after (set_address k given) env = record env {
  vendors = modify env.vendors k (λ (v : Vendor). (vendor_add_address v given).1);
}
after (describe id type version description) env =
    (module_set_type_version_desc env id type version description).1

-- The tables that a sequence of calls reaches.
pub data Reaches (start : Env) : Env → Type 0 where
  here : Reaches start start
  step : {m n : Env} → Reaches start m → (op : EnvOp) → n ≡ after op m → Reaches start n
