-- ===== src/Env/Keeping.antt =====
-- What the proofs that the calls keep the invariant share: an index that was found is in the table.
pub mod Linked
pub mod Vendored
use mathlib.Core.Path.{subst}
use libamvp.Common.{
  ℕ, zero, suc, ◌+◌, ◌≤◌, ◌<◌, ◌≡◌, ◌≢◌, refl, ◌∙◌, ap, Bool, true, false, ◌||◌, Option, none, some,
  List, [], ◌∷◌, ◌++◌, ◌==◌, length, arith, All, length-append, length-modify, modify, get_elem?,
  if-split, if-both, if◌then◌else◌, is_some, inl, inr, Bool-cases, Option-cases,
}
use libamvp.Result.{Result, invalid_arg, is_success}
use libamvp.SafeC.Errno.{CStr}
use libamvp.Env.Types.{
  Env, Vendor, Module, Dependency, Oe, Address, Field, vendors_max, modules_max, dependencies_max,
  oes_max, empty_env, new_vendor, new_module, new_dependency, new_oe,
}
use libamvp.Env.Tables.{
  find_from, find_entry, has_id, dependency_new, DependencyField, field_type, field_name,
  field_desc, field_man, field_version, field_family, field_series, dependency_field,
  put_dependency_field, copy_oe_string, set_found, dependency_set_field, oe_new, link_dependency,
  link_found, oe_set_dependency, vendor_new, vendor_add_address, attach_vendor, module_new,
  describe_module, module_set_type_version_desc, find_dependency, find_vendor, find_oe, find_module,
  copy_given, module_copies,
}
use libamvp.Env.Refinement.{keeps_id}
use libamvp.Env.Valid.{
  IsTable, IsValid, IsLinked, IsVendored, append-IsTable, modify-IsTable, All-append, All-modify,
  All-map, IsLinked-le, IsVendored-le, empty_env-IsValid,
}
use libamvp.Env.Ops.{
  EnvOp, add_vendor, add_module, add_oe, add_dependency, set_value, link, set_address, describe,
  after, Reaches, here, step,
}

module _ {A : Type 0} (id_of : A → ℕ) where
  find_from_lt : (id k j : ℕ) (xs : List A) → find_from id_of id k xs ≡ some j → j < k + length xs
  unfolding find_from
  find_from_lt id k j [] h = cc
  find_from_lt id k j (x ∷ xs) h = ground (arith, find_from_lt id (k + 1) j xs)

  pub find_entry_lt : (id j : ℕ) (xs : List A) → find_entry id_of id xs ≡ some j → j < length xs
  unfolding find_entry
  find_entry_lt id j xs h = ground (arith, find_from_lt id 0 j xs)

module _ {A : Type 0} where
  pub All-modify-at :
      (P : A → Type 0) (xs : List A) (k : ℕ) (f : A → A) (x : A)
      → get_elem? xs k ≡ some x
      → (P x → P (f x))
      → All P xs
      → All P (modify xs k f)
  All-modify-at P [] k f x e p h = h
  All-modify-at P (y ∷ xs) zero f x e p h =
      let same : x ≡ y = cc in (subst (λ z. P z → P (f z)) same p h.0, h.1)
  All-modify-at P (y ∷ xs) (suc k) f x e p h = (h.0, All-modify-at P xs k f x e p h.1)

abbrev pub KeepsValid : Result × Env → Type 0
KeepsValid r = IsValid r.1

-- The ids that a new entry needs.
pub fresh : (id : ℕ) (b : Bool) → (id == 0 || b) ≡ false → (0 < id) × (b ≡ false)
fresh id b h = ground arith

pub not_full : (n max : ℕ) → (n == max) ≡ false → n ≢ max
not_full n max h = ground arith
