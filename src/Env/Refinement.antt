-- ===== src/Env/Refinement.antt =====
-- The dependency table implements a finite map from ids to dependencies.
use mathlib.Core.Path.{fun_ext}
use libamvp.Common.{
  ℕ, ◌+◌, ◌-◌, ◌≤◌, ◌<◌, ◌≡◌, refl, sym, ◌∙◌, inl, inr, Option, none, some, List, [], ◌∷◌, ◌==◌,
  if◌then◌else◌, length, arith, Bool-cases, Option-cases, is_some, leb, All, length-append,
  length-modify, modify,
}
use libamvp.Result.{Result, invalid_arg}
use libamvp.SafeC.Errno.{CStr, NoNul}
use libamvp.Env.Types.{Env, Dependency, new_dependency}
use libamvp.Env.Tables.{
  find_from, find_entry, has_id, find_dependency, dependency_new, DependencyField, field_type,
  field_name, field_desc, field_man, field_version, field_family, field_series, dependency_field,
  put_dependency_field, copy_oe_string, set_found, dependency_set_field,
}
use libamvp.Env.Copies.{copy_oe_string_lem}
use libamvp.Env.Lookup.{map_option, entry_of, find_from-entry_of, entry_of-append, entry_of-modify}
use libamvp.Env.View.{
  View, id_of, view, update, spec, perform, performs, specs, IsOp, TableOp, create, set,
}

has_id-entry_of :
    (id : ℕ) (xs : List Dependency) → has_id id_of id xs ≡ is_some (entry_of id_of id xs)
unfolding has_id entry_of
has_id-entry_of id [] = refl
has_id-entry_of id (x ∷ xs) = ground (arith, has_id-entry_of id xs)

pub keeps_id :
    (field : DependencyField) (v : Option CStr) (d : Dependency)
    → (put_dependency_field field v d).id ≡ d.id
keeps_id field_type v d = refl
keeps_id field_name v d = refl
keeps_id field_desc v d = refl
keeps_id field_man v d = refl
keeps_id field_version v d = refl
keeps_id field_family v d = refl
keeps_id field_series v d = refl

-- The code and the map do the same.
abbrev Agree : Result × Env → Result × View → Type 0
Agree r s = (r.0 ≡ s.0) × (view r.1 ≡ s.1)

create_refines :
    (env : Env) (id : ℕ)
    → length env.dependencies < 64
    → Agree (dependency_new env id) (spec (create id) (view env))
unfolding dependency_new spec view
create_refines env id h = (
  ground (arith, has_id-entry_of id env.dependencies),
  fun_ext λ j. ground (
    arith,
    has_id-entry_of id env.dependencies,
    entry_of-append id_of j env.dependencies (new_dependency id),
  ),
)

absent_runs :
    (env : Env) (field : DependencyField) (id : ℕ) (value : Option CStr)
    → find_dependency env id ≡ none
    → dependency_set_field env field id value ≡ (invalid_arg, env)
unfolding dependency_set_field set_found find_dependency find_entry
absent_runs env field id value h = ground arith

missing_refines :
    (env : Env) (field : DependencyField) (id : ℕ) (value : Option CStr)
    → find_dependency env id ≡ none
    → Agree (dependency_set_field env field id value) (spec (set field id value) (view env))
unfolding find_dependency find_entry spec view
missing_refines env field id value h =
    let absent : view env id ≡ none =
      ground (arith, find_from-entry_of id_of id 0 env.dependencies) in
    rw (absent, absent_runs env field id value h) (refl, refl)

put_same :
    (field : DependencyField) (d : Dependency)
    → put_dependency_field field (dependency_field field d) d ≡ d
put_same field_type d = refl
put_same field_name d = refl
put_same field_desc d = refl
put_same field_man d = refl
put_same field_version d = refl
put_same field_family d = refl
put_same field_series d = refl

-- The change of the entry that was found.
abbrev change : DependencyField → Option CStr → Dependency → Dependency
change field value d =
    put_dependency_field field (copy_oe_string (dependency_field field d) value).1 d

view-modify :
    (env : Env) (id k j : ℕ) (f : Dependency → Dependency)
    → ((d : Dependency) → (f d).id ≡ d.id)
    → find_dependency env id ≡ some k
    → view (record env { dependencies = modify env.dependencies k f }) j
      ≡ (if j == id then map_option f (view env j) else view env j)
unfolding view find_dependency find_entry
view-modify env id k j f keeps h =
    let found : find_from id_of id 0 env.dependencies ≡ some k = ground arith in
    let start : k ≡ k - 0 = omega arith in
    let changed : entry_of id_of j (modify env.dependencies k f) ≡ (
        if j == id
        then map_option f (entry_of id_of j env.dependencies)
        else entry_of id_of j env.dependencies) =
      rw start (entry_of-modify id_of j id 0 k env.dependencies f keeps found) in
    ground (arith, changed)

view_found :
    (env : Env) (id k : ℕ)
    → find_dependency env id ≡ some k
    → (d : Dependency) × (view env id ≡ some d)
unfolding view find_dependency find_entry
view_found env id k h = elim (Option-cases (view env id)) [
  | inl none_there ↦ absurd (ground (arith, find_from-entry_of id_of id 0 env.dependencies))
  | inr found ↦ found
]

set_runs :
    (env : Env) (field : DependencyField) (id k : ℕ) (value : Option CStr)
    → find_dependency env id ≡ some k
    → dependency_set_field env field id value ≡ set_found env field value (some k)
unfolding dependency_set_field find_dependency find_entry
set_runs env field id k value h = ground arith

-- The map after the change, where the copy is `copied`.
changed_view :
    (env : Env) (field : DependencyField) (id k j : ℕ) (s : CStr) (d e : Dependency)
    → find_dependency env id ≡ some k
    → view env id ≡ some d
    → change field (some s) d ≡ e
    → view (record env { dependencies = modify env.dependencies k (change field (some s)) }) j
      ≡ update (view env) id (some e) j
changed_view env field id k j s d e h there c =
    let keeps =
      λ (x : Dependency). keeps_id field (copy_oe_string (dependency_field field x) (some s)).1 x in
    rw (view-modify env id k j (change field (some s)) keeps h) (elim (Bool-cases (j == id)) [
      | inl same ↦ let at : j ≡ id = ground arith in rw (at, there, c) refl
      | inr other ↦ rw other refl
    ])

same_view : (v : View) (id j : ℕ) (d : Dependency) → v id ≡ some d → update v id (some d) j ≡ v j
same_view v id j d h = elim (Bool-cases (j == id)) [
  | inl same ↦ let at : j ≡ id = ground arith in rw (at, h) (ground arith)
  | inr other ↦ rw other refl
]

found_refines :
    (env : Env) (field : DependencyField) (id k : ℕ) (s : CStr)
    → NoNul s
    → find_dependency env id ≡ some k
    → Agree (dependency_set_field env field id (some s)) (spec (set field id (some s)) (view env))
unfolding set_found spec
found_refines env field id k s nn h =
    let (d, there) = view_found env id k h in
    let copied = copy_oe_string_lem (dependency_field field d) s nn in
    rw (set_runs env field id k (some s) h, there, copy_oe_string_lem none s nn)
      (elim (Bool-cases (leb (length s) 256)) [
        | inl fits ↦
            let c : change field (some s) d ≡ put_dependency_field field (some s) d =
              rw (copied, fits) refl in
            rw fits (refl, fun_ext λ j. changed_view env field id k j s d _ h there c)
        | inr long ↦
            let c : change field (some s) d ≡ d = rw (copied, long) (put_same field d) in
            rw long (
              refl,
              fun_ext λ j.
                  changed_view env field id k j s d d h there c ∙ same_view (view env) id j d there,
            )
      ])

null_refines :
    (env : Env) (field : DependencyField) (id k : ℕ)
    → find_dependency env id ≡ some k
    → Agree (dependency_set_field env field id none) (spec (set field id none) (view env))
unfolding set_found spec copy_oe_string
null_refines env field id k h =
    let (d, there) = view_found env id k h in
    let keeps = λ (x : Dependency). keeps_id field (dependency_field field x) x in
    rw (set_runs env field id k none h, there)
      (
        refl,
        fun_ext λ j.
            view-modify env id k j (change field none) keeps h ∙ elim (Bool-cases (j == id)) [
              | inl same ↦
                  let at : j ≡ id = ground arith in rw (at, there, put_same field d) (ground arith)
              | inr other ↦ rw other refl
            ],
      )

step_refines :
    (op : TableOp) (env : Env)
    → IsOp op
    → length env.dependencies < 64
    → Agree (perform op env) (spec op (view env))
unfolding perform
step_refines (create id) env nn h = create_refines env id h
step_refines (set field id none) env nn h = elim (Option-cases (find_dependency env id)) [
  | inl absent ↦ missing_refines env field id none absent
  | inr (k, found) ↦ null_refines env field id k found
]
step_refines (set field id (some s)) env nn h = elim (Option-cases (find_dependency env id)) [
  | inl absent ↦ missing_refines env field id (some s) absent
  | inr (k, found) ↦ found_refines env field id k s nn found
]

step_grows :
    (op : TableOp) (env : Env)
    → length (perform op env).1.dependencies ≤ length env.dependencies + 1
unfolding perform dependency_new
step_grows (create id) env =
    ground (arith, length-append {A = Dependency} env.dependencies (new_dependency id ∷ []))
step_grows (set field id value) env = elim (Option-cases (find_dependency env id)) [
  | inl absent ↦ rw (absent_runs env field id value absent) (omega arith)
  | inr (k, found) ↦
      rw (set_runs env field id k value found)
        (unfold set_found in omega (arith, length-modify env.dependencies k (change field value)))
]

-- A sequence of creations and assignments that does not reach the capacity of the table returns
-- the results that the map gives, and leaves a table with the entries of the map.
pub performs_refines :
    (ops : List TableOp) (env : Env)
    → All IsOp ops
    → length env.dependencies + length ops ≤ 64
    → ((performs ops env).0 ≡ (specs ops (view env)).0)
      × (view (performs ops env).1 ≡ (specs ops (view env)).1)
unfolding performs specs
performs_refines [] env nn h = (refl, refl)
performs_refines (op ∷ ops) env nn h =
    let (r, v) = step_refines op env nn.0 (omega arith) in
    let (rs, vs) =
      performs_refines ops (perform op env).1 nn.1 (omega (arith, step_grows op env)) in
    rw (sym v, r, rs) (refl, vs)
