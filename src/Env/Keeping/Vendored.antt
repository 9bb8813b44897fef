-- ===== src/Env/Keeping/Vendored.antt =====
-- The calls for vendors and modules keep the invariant.
use libamvp.Common.{
  ℕ, ◌<◌, ◌≡◌, ◌≢◌, refl, ◌∙◌, false, ◌||◌, Option, none, some, [], ◌∷◌, ◌++◌, ◌==◌, length, arith,
  length-append, length-modify, modify, if-split, if-both, inl, inr, Option-cases,
}
use libamvp.Result.{Result, is_success}
use libamvp.SafeC.Errno.{CStr}
use libamvp.Env.Types.{Env, Vendor, Module, Address, Field, vendors_max, modules_max, new_vendor}
use libamvp.Env.Tables.{
  find_entry, has_id, copy_oe_string, vendor_new, vendor_add_address, attach_vendor, module_new,
  describe_module, find_vendor, copy_given, module_copies,
}
use libamvp.Env.Valid.{
  IsValid, IsVendored, append-IsTable, modify-IsTable, All-append, All-modify, All-map,
  IsVendored-le,
}
use libamvp.Env.Keeping.{find_entry_lt, KeepsValid, fresh, not_full}

pub vendor_new-IsValid :
    (env : Env) (id : ℕ) (name : Option CStr) → IsValid env → IsValid (vendor_new env id name).1
unfolding vendor_new
vendor_new-IsValid env id name v =
    if-split KeepsValid (length env.vendors == vendors_max) (λ full. v)
      λ room.
        if-split KeepsValid (id == 0 || has_id (λ (x : Vendor). x.id) id env.vendors) (λ bad. v)
          λ ok.
            let (pos, new) = fresh id _ ok in
            let one = record (new_vendor id) { name = (copy_oe_string none name).1 } in
            record {
              vendors = append-IsTable _ _ env.vendors one v.vendors (not_full _ _ room) pos new;
              modules = v.modules;
              dependencies = v.dependencies;
              oes = v.oes;
              linked = v.linked;
              vendored =
                  All-map _ _ env.modules
                    (λ m.
                      IsVendored-le _ _ m.vendor
                        (omega (arith, length-append env.vendors (one ∷ []))))
                    v.vendored;
            }

pub appended_module-IsValid :
    (env : Env) (m : Module)
    → IsValid env
    → length env.modules ≢ modules_max
    → 0 < m.id
    → has_id (λ (x : Module). x.id) m.id env.modules ≡ false
    → IsVendored (length env.vendors) m.vendor
    → IsValid (record env { modules = env.modules ++ (m ∷ []) })
appended_module-IsValid env m v room pos new k = record {
  vendors = v.vendors;
  modules = append-IsTable _ _ env.modules m v.modules room pos new;
  dependencies = v.dependencies;
  oes = v.oes;
  linked = v.linked;
  vendored = All-append _ env.modules m v.vendored k;
}

pub attach_vendor-IsValid :
    (env : Env) (id : ℕ) (name : Option CStr) (found : Option ℕ)
    → IsValid env
    → length env.modules ≢ modules_max
    → 0 < id
    → has_id (λ (x : Module). x.id) id env.modules ≡ false
    → IsVendored (length env.vendors) found
    → IsValid (attach_vendor env id name found).1
unfolding attach_vendor
attach_vendor-IsValid env id name none v room pos new k =
    appended_module-IsValid env _ v room pos new tt
attach_vendor-IsValid env id name (some j) v room pos new k =
    appended_module-IsValid env _ v room pos new k

find_vendor-IsVendored : (env : Env) (id : ℕ) → IsVendored (length env.vendors) (find_vendor env id)
unfolding find_vendor
find_vendor-IsVendored env id =
    elim (Option-cases (find_entry (λ (x : Vendor). x.id) id env.vendors)) [
      | inl e ↦ rw e tt
      | inr (j, e) ↦ rw e (find_entry_lt (λ (x : Vendor). x.id) id j env.vendors e)
    ]

pub module_new-IsValid :
    (env : Env) (id : ℕ) (name : Option CStr) → IsValid env → IsValid (module_new env id name).1
unfolding module_new
module_new-IsValid env id name v =
    if-split KeepsValid (length env.modules == modules_max) (λ full. v)
      λ room.
        if-split KeepsValid (id == 0 || has_id (λ (x : Module). x.id) id env.modules) (λ bad. v)
          λ ok.
            let (pos, new) = fresh id _ ok in
            attach_vendor-IsValid env id name _ v (not_full _ _ room) pos new
              (find_vendor-IsVendored env id)

pub keeps_vendor_id : (given : Address) (v : Vendor) → (vendor_add_address v given).1.id ≡ v.id
unfolding vendor_add_address
keeps_vendor_id given v = if-both (λ (r : Result × Vendor). r.1.id ≡ v.id) _ refl refl

pub vendors_modified-IsValid :
    (env : Env) (k : ℕ) (f : Vendor → Vendor)
    → ((x : Vendor) → (f x).id ≡ x.id)
    → IsValid env
    → IsValid (record env { vendors = modify env.vendors k f })
vendors_modified-IsValid env k f keeps v = record {
  vendors = modify-IsTable _ _ env.vendors k f keeps v.vendors;
  modules = v.modules;
  dependencies = v.dependencies;
  oes = v.oes;
  linked = v.linked;
  vendored = rw (length-modify env.vendors k f) v.vendored;
}

-- A copy into a module keeps its id and its vendor.
abbrev SameLinks : Module → Result × Module → Type 0
SameLinks m r = (r.1.id ≡ m.id) × (r.1.vendor ≡ m.vendor)

copy_given-SameLinks :
    (m : Module) (read : Module → Field) (write : Field → Module → Module) (s : Option CStr)
    (r : Result × Module)
    → ((v : Field) (x : Module) → ((write v x).id ≡ x.id) × ((write v x).vendor ≡ x.vendor))
    → SameLinks m r
    → SameLinks m (copy_given read write s r)
unfolding copy_given
copy_given-SameLinks m read write none (rv, a) k h = h
copy_given-SameLinks m read write (some s) (rv, a) k h =
    if-both (SameLinks m) (is_success rv) ((k _ a).0 ∙ h.0, (k _ a).1 ∙ h.1) h

module_copies-SameLinks :
    (type version description : Option CStr) (m : Module)
    → SameLinks m (module_copies type version description m)
module_copies-SameLinks type version description m =
    copy_given-SameLinks m _ _ description _ (λ v x. (refl, refl))
      (copy_given-SameLinks m _ _ version _ (λ v x. (refl, refl))
        (copy_given-SameLinks m _ _ type _ (λ v x. (refl, refl)) (refl, refl)))

pub describe_module-IsValid :
    (env : Env) (type version description : Option CStr) (k : Option ℕ)
    → IsValid env
    → IsValid (describe_module env type version description k).1
unfolding describe_module
describe_module-IsValid env type version description none v = v
describe_module-IsValid env type version description (some k) v =
    let same = module_copies-SameLinks type version description in
    record {
      vendors = v.vendors;
      modules = modify-IsTable _ _ env.modules k _ (λ m. (same m).0) v.modules;
      dependencies = v.dependencies;
      oes = v.oes;
      linked = v.linked;
      vendored = All-modify _ env.modules k _ (λ m h. rw ((same m).1) h) v.vendored;
    }
