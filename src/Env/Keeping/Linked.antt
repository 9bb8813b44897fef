-- ===== src/Env/Keeping/Linked.antt =====
-- The calls for dependencies and operating environments keep the invariant.
use libamvp.Common.{
  ℕ, ◌<◌, ◌≡◌, ◌≢◌, refl, false, ◌||◌, Option, none, some, [], ◌∷◌, ◌++◌, ◌==◌, length, arith,
  length-append, length-modify, modify, get_elem?, if-split, if-both,
}
use libamvp.SafeC.Errno.{CStr}
use libamvp.Env.Types.{Env, Dependency, Oe, dependencies_max, oes_max, new_dependency}
use libamvp.Env.Tables.{
  has_id, dependency_new, DependencyField, dependency_field, copy_oe_string, set_found,
  dependency_set_field, oe_new, link_dependency, link_found, oe_set_dependency, find_dependency,
}
use libamvp.Env.Refinement.{keeps_id}
use libamvp.Env.Valid.{
  IsValid, IsLinked, append-IsTable, modify-IsTable, All-append, All-map, IsLinked-le,
}
use libamvp.Env.Keeping.{find_entry_lt, All-modify-at, KeepsValid, fresh, not_full}

pub dependency_new-IsValid : (env : Env) (id : ℕ) → IsValid env → IsValid (dependency_new env id).1
unfolding dependency_new
dependency_new-IsValid env id v =
    if-split KeepsValid (length env.dependencies == dependencies_max) (λ full. v)
      λ room.
        if-split KeepsValid (id == 0 || has_id (λ (d : Dependency). d.id) id env.dependencies)
          (λ bad. v)
          λ ok.
            let (pos, new) = fresh id _ ok in
            record {
              vendors = v.vendors;
              modules = v.modules;
              dependencies =
                  append-IsTable _ _ env.dependencies (new_dependency id) v.dependencies
                    (not_full _ _ room) pos new;
              oes = v.oes;
              linked =
                  All-map _ _ env.oes
                    (λ o.
                      IsLinked-le _ _ o
                        (omega (arith, length-append env.dependencies (new_dependency id ∷ []))))
                    v.linked;
              vendored = v.vendored;
            }

pub modified-IsValid :
    (env : Env) (k : ℕ) (f : Dependency → Dependency)
    → ((d : Dependency) → (f d).id ≡ d.id)
    → IsValid env
    → IsValid (record env { dependencies = modify env.dependencies k f })
modified-IsValid env k f keeps v = record {
  vendors = v.vendors;
  modules = v.modules;
  dependencies = modify-IsTable _ _ env.dependencies k f keeps v.dependencies;
  oes = v.oes;
  linked = rw (length-modify env.dependencies k f) v.linked;
  vendored = v.vendored;
}

pub set_found-IsValid :
    (env : Env) (field : DependencyField) (value : Option CStr) (k : Option ℕ)
    → IsValid env
    → IsValid (set_found env field value k).1
unfolding set_found
set_found-IsValid env field value none v = v
set_found-IsValid env field value (some k) v =
    modified-IsValid env k _
      (λ d. keeps_id field (copy_oe_string (dependency_field field d) value).1 d) v

pub dependency_set_field-IsValid :
    (env : Env) (field : DependencyField) (id : ℕ) (value : Option CStr)
    → IsValid env
    → IsValid (dependency_set_field env field id value).1
unfolding dependency_set_field
dependency_set_field-IsValid env field id value v =
    if-split KeepsValid (id == 0) (λ z. v) (λ n. set_found-IsValid env field value _ v)

pub appended_oe-IsValid :
    (env : Env) (o : Oe)
    → IsValid env
    → length env.oes ≢ oes_max
    → 0 < o.id
    → has_id (λ (x : Oe). x.id) o.id env.oes ≡ false
    → IsLinked (length env.dependencies) o
    → IsValid (record env { oes = env.oes ++ (o ∷ []) })
appended_oe-IsValid env o v room pos new links = record {
  vendors = v.vendors;
  modules = v.modules;
  dependencies = v.dependencies;
  oes = append-IsTable _ _ env.oes o v.oes room pos new;
  linked = All-append _ env.oes o v.linked links;
  vendored = v.vendored;
}

pub oe_new-IsValid :
    (env : Env) (id : ℕ) (name : Option CStr) → IsValid env → IsValid (oe_new env id name).1
unfolding oe_new
oe_new-IsValid env id none v =
    if-both KeepsValid (length env.oes == oes_max) v (if-both KeepsValid (id == 0) v v)
oe_new-IsValid env id (some name) v =
    if-split KeepsValid (length env.oes == oes_max) (λ full. v)
      λ room.
        if-split KeepsValid (id == 0 || has_id (λ (o : Oe). o.id) id env.oes) (λ bad. v)
          λ ok.
            let (pos, new) = fresh id _ ok in
            appended_oe-IsValid env _ v (not_full _ _ room) pos new (tt, omega arith)

one_more :
    {n : ℕ} (o : Oe) (d : ℕ)
    → (length o.deps == dependencies_max) ≡ false
    → d < n
    → IsLinked n o
    → IsLinked n (record o { deps = o.deps ++ (d ∷ []) })
one_more o d room h (links, few) =
    (All-append _ o.deps d links h, omega (arith, not_full _ _ room, length-append o.deps (d ∷ [])))

pub link_dependency-IsValid :
    (env : Env) (k d : ℕ) (o : Option Oe)
    → IsValid env
    → get_elem? env.oes k ≡ o
    → d < length env.dependencies
    → IsValid (link_dependency env k d o).1
unfolding link_dependency
link_dependency-IsValid env k d none v at h = v
link_dependency-IsValid env k d (some o) v at h =
    if-split KeepsValid (length o.deps == dependencies_max) (λ full. v)
      λ room. record {
        vendors = v.vendors;
        modules = v.modules;
        dependencies = v.dependencies;
        oes = modify-IsTable _ _ env.oes k _ (λ x. refl) v.oes;
        linked =
            All-modify-at (IsLinked (length env.dependencies)) env.oes k _ o at
              (one_more o d room h) v.linked;
        vendored = v.vendored;
      }

pub link_found-IsValid :
    (env : Env) (k d : Option ℕ)
    → IsValid env
    → ((j : ℕ) → d ≡ some j → j < length env.dependencies)
    → IsValid (link_found env k d).1
unfolding link_found
link_found-IsValid env none d v h = v
link_found-IsValid env (some k) none v h = v
link_found-IsValid env (some k) (some d) v h = link_dependency-IsValid env k d _ v refl (h d refl)

pub oe_set_dependency-IsValid :
    (env : Env) (oe_id dependency_id : ℕ)
    → IsValid env
    → IsValid (oe_set_dependency env oe_id dependency_id).1
unfolding oe_set_dependency find_dependency
oe_set_dependency-IsValid env oe_id dependency_id v =
    link_found-IsValid env _ _ v
      (λ j e. find_entry_lt (λ (d : Dependency). d.id) dependency_id j env.dependencies e)
