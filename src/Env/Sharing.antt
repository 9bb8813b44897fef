-- ===== src/Env/Sharing.antt =====
-- The dependencies that are made for the operating environments of a metadata file.
use libamvp.Common.{
  ℕ, zero, suc, ◌+◌, ◌≤◌, ◌<◌, ◌≡◌, refl, ◌∙◌, true, ◌||◌, Option, none, some, List, [], ◌∷◌, ◌==◌,
  is_some, length, length-append, length-modify, if-split, if-both, arith, get_elem?,
}
use libamvp.Result.{Result, is_success}
use libamvp.SafeC.Errno.{CStr}
use libamvp.Protocol.Json.{Json}
use libamvp.Env.Types.{Field, Env, Dependency, Oe, dependencies_max, new_dependency}
use libamvp.Env.Tables.{
  dependency_new, DependencyField, dependency_field, dependency_set_field, set_found,
  find_dependency, find_oe, oe_set_dependency, link_found, link_dependency, has_id,
}
use libamvp.Env.Loading.{
  Loader, then_load, match_dependency, matches, set_given, set_fields, all_fields, fill_found,
  fill_new, link_created, load_dependency, given_dependency, load_entry, load_dependencies,
  parse_oe_dependencies,
}

-- The number of dependencies.
abbrev pub count : Env → ℕ
count env = length env.dependencies

set_found-count :
    (env : Env) (f : DependencyField) (value : Option CStr) (k : Option ℕ)
    → count (set_found env f value k).1 ≡ count env
unfolding set_found
set_found-count env f value none = refl
set_found-count env f value (some k) = length-modify env.dependencies k _

set_given-count :
    (id : ℕ) (f : DependencyField) (value : Field) (env : Env)
    → count (set_given id f value env).1 ≡ count env
unfolding set_given dependency_set_field
set_given-count id f none env = refl
set_given-count id f (some s) env =
    if-both {A = Result × Env} (λ r. count r.1 ≡ count env) (id == 0) refl
      (set_found-count env f (some s) (find_dependency env id))

set_fields-count :
    (id : ℕ) (dep : Dependency) (fs : List DependencyField) (env : Env)
    → count (set_fields id dep fs env).1 ≡ count env
unfolding set_fields then_load
set_fields-count id dep [] env = refl
set_fields-count id dep (f ∷ fs) env =
    let given = set_given-count id f (dependency_field f dep) env in
    if-both {A = Result × Env} (λ r. count r.1 ≡ count env)
      (is_success (set_given id f (dependency_field f dep) env).0)
      (set_fields-count id dep fs _ ∙ given) given

fill_found-count :
    (dep : Dependency) (id : ℕ) (k : Option ℕ) (env : Env)
    → count (fill_found dep id k env).1 ≡ count env
unfolding fill_found
fill_found-count dep id none env = refl
fill_found-count dep id (some k) env = set_fields-count id dep all_fields env

link_dependency-count :
    (env : Env) (k d : ℕ) (o : Option Oe) → count (link_dependency env k d o).1 ≡ count env
unfolding link_dependency
link_dependency-count env k d none = refl
link_dependency-count env k d (some o) =
    if-both {A = Result × Env} (λ r. count r.1 ≡ count env) (length o.deps == dependencies_max) refl
      refl

link_found-count : (env : Env) (k d : Option ℕ) → count (link_found env k d).1 ≡ count env
unfolding link_found
link_found-count env none d = refl
link_found-count env (some k) none = refl
link_found-count env (some k) (some d) = link_dependency-count env k d (get_elem? env.oes k)

oe_set_dependency-count :
    (env : Env) (oe_id id : ℕ) → count (oe_set_dependency env oe_id id).1 ≡ count env
unfolding oe_set_dependency
oe_set_dependency-count env oe_id id =
    link_found-count env (find_oe env oe_id) (find_dependency env id)

-- After a success there is one dependency more.
abbrev pub Adds : {A : Type 0} → (A → Env) → ℕ → Result × A → Type 0
Adds env_of n r = is_success r.0 ≡ true → count (env_of r.1) ≡ n

dependency_new-Adds :
    (env : Env) (id : ℕ)
    → count env < dependencies_max
    → Adds (λ e. e) (count env + 1) (dependency_new env id)
unfolding dependency_new
dependency_new-Adds env id room =
    if-split (Adds (λ e. e) (count env + 1)) (count env == dependencies_max)
      (λ full ok. absurd (ground (arith, full, room)))
      (λ free.
        if-both (Adds (λ e. e) (count env + 1))
          (id == 0 || has_id (λ (d : Dependency). d.id) id env.dependencies) (λ ok. cc)
          (λ ok. omega (arith, length-append env.dependencies (new_dependency id ∷ []))))

then_load-Adds :
    (n : ℕ) (r : Result × Env) (next : Env → Result × Env)
    → Adds (λ e. e) n r
    → ((e : Env) → count (next e).1 ≡ count e)
    → Adds (λ e. e) n (then_load r next)
unfolding then_load
then_load-Adds n (rv, env) next h k =
    if-split (Adds (λ e. e) n) (is_success rv) (λ t ok. k env ∙ h t) (λ f ok. cc)

created-Adds :
    (dep : Dependency) (id : ℕ) (env : Env)
    → count env < dependencies_max
    → Adds (λ e. e) (count env + 1) (then_load (dependency_new env id) (fill_new dep id))
created-Adds dep id env room =
    then_load-Adds (count env + 1) (dependency_new env id) (fill_new dep id)
      (dependency_new-Adds env id room) (λ e. fill_found-count dep id (find_dependency e id) e)

link_created-Adds :
    (oe_id n : ℕ) (l : Loader) (r : Result × Env)
    → Adds (λ e. e) n r
    → Adds (λ (k : Loader). k.env) n (link_created oe_id l r)
unfolding link_created
link_created-Adds oe_id n l (rv, env) h =
    if-split (Adds (λ (k : Loader). k.env) n) (is_success rv)
      (λ t ok. oe_set_dependency-count env oe_id l.dependency_id ∙ h t) (λ f ok. cc)

-- The id of the value that is looked for is 0.
match_dependency_zero : (env : Env) (dep : Dependency) → dep.id ≡ 0 → match_dependency env dep ≡ 0
unfolding match_dependency
match_dependency_zero env dep h = if-both (λ n. n ≡ 0) (matches dep env.dependencies) h refl

load_dependency-Adds :
    (oe_id : ℕ) (dep : Dependency) (l : Loader)
    → dep.id ≡ 0
    → count l.env < dependencies_max
    → Adds (λ (k : Loader). k.env) (count l.env + 1) (load_dependency oe_id dep l)
unfolding load_dependency
load_dependency-Adds oe_id dep l h room =
    rw (match_dependency_zero l.env dep h)
      (link_created-Adds oe_id (count l.env + 1) l _ (created-Adds dep l.dependency_id l.env room))

module _ {Value Array Object : Type 0} (json : Json Value Array Object) where
  open json use {get_count, get_object, get_string, get_array_of}

  load_entry-Adds :
      (oe_id : ℕ) (obj : Option Object) (l : Loader)
      → count l.env < dependencies_max
      → Adds
          (λ (k : Loader). k.env)
          (count l.env + 1)
          (load_entry json oe_id (given_dependency json obj) l)
  unfolding load_entry given_dependency
  load_entry-Adds oe_id obj l room =
      let dep = given_dependency json obj in
      if-both (Adds (λ (k : Loader). k.env) (count l.env + 1))
        (is_some dep.type || is_some dep.name || is_some dep.description)
        (load_dependency-Adds oe_id dep l refl room) (λ ok. cc)

  then_entries-Adds :
      (n : ℕ) (l : Loader) (r : Result × Loader) (next : Loader → Result × Loader)
      → Adds (λ (k : Loader). k.env) (count l.env + 1) r
      → ((k : Loader)
          → count k.env ≡ count l.env + 1
          → Adds (λ (k : Loader). k.env) (count k.env + n) (next k))
      → Adds (λ (k : Loader). k.env) (count l.env + suc n) (then_load r next)
  unfolding then_load
  then_entries-Adds n l (rv, k) next h more =
      if-split (Adds (λ (k : Loader). k.env) (count l.env + suc n)) (is_success rv)
        (λ t ok. omega (arith, h t, more k (h t) ok)) (λ f ok. cc)

  load_dependencies-Adds :
      (oe_id n i : ℕ) (arr : Array) (l : Loader)
      → count l.env + n ≤ dependencies_max
      → Adds (λ (k : Loader). k.env) (count l.env + n) (load_dependencies json oe_id n i arr l)
  unfolding load_dependencies
  load_dependencies-Adds oe_id zero i arr l room = λ ok. omega arith
  load_dependencies-Adds oe_id (suc n) i arr l room =
      then_entries-Adds n l _ (load_dependencies json oe_id n (i + 1) arr)
        (load_entry-Adds oe_id (get_object arr i) l (omega arith))
        (λ k e. load_dependencies-Adds oe_id n (i + 1) arr k (omega (arith, e)))

  -- When the dependencies of an operating environment are read with success and the table has room
  -- for them, then it has grown by as many entries as the file lists: a dependency that is in the
  -- table before is stored once more.
  pub parse_oe_dependencies_grows :
      (oe_id : ℕ) (arr : Array) (l : Loader)
      → length l.env.dependencies + get_count arr ≤ dependencies_max
      → is_success (parse_oe_dependencies json oe_id (some arr) l).0 ≡ true
      → length (parse_oe_dependencies json oe_id (some arr) l).1.env.dependencies
        ≡ length l.env.dependencies + get_count arr
  unfolding parse_oe_dependencies
  parse_oe_dependencies_grows oe_id arr l room =
      if-both (Adds (λ (k : Loader). k.env) (length l.env.dependencies + get_count arr))
        (get_count arr == 0) (λ ok. cc) (load_dependencies-Adds oe_id (get_count arr) 0 arr l room)
