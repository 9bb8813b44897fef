-- ===== src/Env/Loaded.antt =====
-- What the parsing of modules and operating environments leaves in the tables.
use libamvp.Common.{
  ℕ, zero, suc, ◌+◌, ◌||◌, Option, none, some, List, [], ◌∷◌, ◌==◌, is_some, codes, if-both,
}
use libamvp.Result.{Result, is_success}
use libamvp.SafeC.Errno.{CStr}
use libamvp.Protocol.Json.{Json}
use libamvp.Env.Types.{Field, Env, Dependency}
use libamvp.Env.Tables.{
  dependency_new, DependencyField, dependency_field, find_dependency, oe_set_dependency, module_new,
  module_set_type_version_desc,
}
use libamvp.Env.Ops.{add_dependency, add_oe, add_module, describe, link, set_value, after}
use libamvp.Env.Valid.{IsValid}
use libamvp.Env.Reach.{after-IsValid}
use libamvp.Env.Loading.{
  Loader, then_load, match_dependency, set_given, set_fields, all_fields, fill_found, fill_new,
  link_created, load_dependency, given_dependency, load_entry, load_dependencies,
  parse_oe_dependencies, parse_oe_named, parse_oe, parse_module_named, parse_module, parse_each,
  parse_oes, parse_modules,
}

then_load-keeps :
    {A : Type 0} (P : A → Type 0) (r : Result × A) (next : A → Result × A)
    → P r.1
    → ((a : A) → P a → P (next a).1)
    → P (then_load r next).1
unfolding then_load
then_load-keeps {A} P (rv, a) next h k =
    if-both {A = Result × A} (λ r. P r.1) (is_success rv) (k a h) h

-- The tables of the loader keep the invariant.
abbrev pub Holds : Loader → Type 0
Holds l = IsValid l.env

set_given-IsValid :
    (id : ℕ) (f : DependencyField) (value : Field) (env : Env)
    → IsValid env
    → IsValid (set_given id f value env).1
unfolding set_given after
set_given-IsValid id f none env v = v
set_given-IsValid id f (some s) env v = after-IsValid (set_value f id (some s)) env v

set_fields-IsValid :
    (id : ℕ) (dep : Dependency) (fs : List DependencyField) (env : Env)
    → IsValid env
    → IsValid (set_fields id dep fs env).1
unfolding set_fields
set_fields-IsValid id dep [] env v = v
set_fields-IsValid id dep (f ∷ fs) env v =
    then_load-keeps IsValid _ (set_fields id dep fs)
      (set_given-IsValid id f (dependency_field f dep) env v) (set_fields-IsValid id dep fs)

fill_found-IsValid :
    (dep : Dependency) (id : ℕ) (k : Option ℕ) (env : Env)
    → IsValid env
    → IsValid (fill_found dep id k env).1
unfolding fill_found
fill_found-IsValid dep id none env v = v
fill_found-IsValid dep id (some k) env v = set_fields-IsValid id dep all_fields env v

linked-IsValid :
    (oe_id id : ℕ) (env : Env) → IsValid env → IsValid (oe_set_dependency env oe_id id).1
unfolding after
linked-IsValid oe_id id env v = after-IsValid (link oe_id id) env v

link_created-Holds :
    (oe_id : ℕ) (l : Loader) (r : Result × Env) → IsValid r.1 → Holds (link_created oe_id l r).1
unfolding link_created
link_created-Holds oe_id l (rv, env) v =
    if-both {A = Result × Loader} (λ r. Holds r.1) (is_success rv)
      (linked-IsValid oe_id l.dependency_id env v) v

created-IsValid :
    (dep : Dependency) (id : ℕ) (env : Env)
    → IsValid env
    → IsValid (then_load (dependency_new env id) (fill_new dep id)).1
unfolding after
created-IsValid dep id env v =
    then_load-keeps IsValid (dependency_new env id) (fill_new dep id)
      (after-IsValid (add_dependency id) env v)
      (λ e. fill_found-IsValid dep id (find_dependency e id) e)

load_dependency-Holds :
    (oe_id : ℕ) (dep : Dependency) (l : Loader) → Holds l → Holds (load_dependency oe_id dep l).1
unfolding load_dependency
load_dependency-Holds oe_id dep l v =
    if-both {A = Result × Loader} (λ r. Holds r.1) (match_dependency l.env dep == 0)
      (link_created-Holds oe_id l _ (created-IsValid dep l.dependency_id l.env v))
      (linked-IsValid oe_id (match_dependency l.env dep) l.env v)

module _ {Value Array Object : Type 0} (json : Json Value Array Object) where
  open json use {get_count, get_object, get_string, get_array_of}

  load_entry-Holds :
      (oe_id : ℕ) (dep : Dependency) (l : Loader) → Holds l → Holds (load_entry json oe_id dep l).1
  unfolding load_entry
  load_entry-Holds oe_id dep l v =
      if-both {A = Result × Loader} (λ r. Holds r.1)
        (is_some dep.type || is_some dep.name || is_some dep.description)
        (load_dependency-Holds oe_id dep l v) v

  load_dependencies-Holds :
      (oe_id n i : ℕ) (arr : Array) (l : Loader)
      → Holds l
      → Holds (load_dependencies json oe_id n i arr l).1
  unfolding load_dependencies
  load_dependencies-Holds oe_id zero i arr l v = v
  load_dependencies-Holds oe_id (suc n) i arr l v =
      then_load-keeps Holds _ (load_dependencies json oe_id n (i + 1) arr)
        (load_entry-Holds oe_id (given_dependency json (get_object arr i)) l v)
        (load_dependencies-Holds oe_id n (i + 1) arr)

  parse_oe_dependencies-Holds :
      (oe_id : ℕ) (given : Option Array) (l : Loader)
      → Holds l
      → Holds (parse_oe_dependencies json oe_id given l).1
  unfolding parse_oe_dependencies
  parse_oe_dependencies-Holds oe_id none l v = v
  parse_oe_dependencies-Holds oe_id (some arr) l v =
      if-both {A = Result × Loader} (λ r. Holds r.1) (get_count arr == 0) v
        (load_dependencies-Holds oe_id (get_count arr) 0 arr l v)

  parse_oe_named-Holds :
      (obj : Object) (name : Option CStr) (l : Loader)
      → Holds l
      → Holds (parse_oe_named json obj name l).1
  unfolding parse_oe_named after
  parse_oe_named-Holds obj none l v = v
  parse_oe_named-Holds obj (some name) l v =
      then_load-keeps Holds _
        (parse_oe_dependencies json l.oe_id (get_array_of obj (codes "dependencies")))
        (after-IsValid (add_oe l.oe_id (some name)) l.env v)
        (parse_oe_dependencies-Holds l.oe_id (get_array_of obj (codes "dependencies")))

  parse_oe-Holds : (obj : Option Object) (l : Loader) → Holds l → Holds (parse_oe json obj l).1
  unfolding parse_oe
  parse_oe-Holds none l v = v
  parse_oe-Holds (some obj) l v = parse_oe_named-Holds obj (get_string obj (codes "name")) l v

  parse_module_named-Holds :
      (obj : Object) (name : Option CStr) (l : Loader)
      → Holds l
      → Holds (parse_module_named json obj name l).1
  unfolding parse_module_named after
  parse_module_named-Holds obj none l v = v
  parse_module_named-Holds obj (some name) l v =
      let type = get_string obj (codes "type") in
      let version = get_string obj (codes "version") in
      let description = get_string obj (codes "description") in
      then_load-keeps IsValid (module_new l.env l.module_id (some name))
        (λ env. module_set_type_version_desc env l.module_id type version description)
        (after-IsValid (add_module l.module_id (some name)) l.env v)
        (after-IsValid (describe l.module_id type version description))

  parse_module-Holds :
      (obj : Option Object) (l : Loader) → Holds l → Holds (parse_module json obj l).1
  unfolding parse_module
  parse_module-Holds none l v = v
  parse_module-Holds (some obj) l v =
      parse_module_named-Holds obj (get_string obj (codes "name")) l v

  parse_each-Holds :
      (parse : Option Object → Loader → Result × Loader)
      → ((obj : Option Object) (l : Loader) → Holds l → Holds (parse obj l).1)
      → (n i : ℕ) (arr : Array) (l : Loader) → Holds l
      → Holds (parse_each json parse n i arr l).1
  unfolding parse_each
  parse_each-Holds parse h zero i arr l v = v
  parse_each-Holds parse h (suc n) i arr l v =
      then_load-keeps Holds (parse (get_object arr i) l) (parse_each json parse n (i + 1) arr)
        (h (get_object arr i) l v) (parse_each-Holds parse h n (i + 1) arr)

  parse_modules-Holds :
      (given : Option Array) (l : Loader) → Holds l → Holds (parse_modules json given l).1
  unfolding parse_modules
  parse_modules-Holds none l v = v
  parse_modules-Holds (some arr) l v =
      parse_each-Holds (parse_module json) parse_module-Holds (get_count arr) 0 arr l v

  parse_oes-Holds : (given : Option Array) (l : Loader) → Holds l → Holds (parse_oes json given l).1
  unfolding parse_oes
  parse_oes-Holds none l v = v
  parse_oes-Holds (some arr) l v =
      parse_each-Holds (parse_oe json) parse_oe-Holds (get_count arr) 0 arr l v

  -- Tables that keep their invariant keep it when the modules and then the operating environments
  -- of a metadata file are read, whatever the file holds, and also where the reading stops with an
  -- error.
  pub parse_metadata-IsValid :
      (modules oes : Option Array) (l : Loader)
      → IsValid l.env
      → IsValid (parse_modules json modules l).1.env
        × IsValid (then_load (parse_modules json modules l) (parse_oes json oes)).1.env
  parse_metadata-IsValid modules oes l v =
      let read = parse_modules-Holds modules l v in
      (
        read,
        then_load-keeps Holds (parse_modules json modules l) (parse_oes json oes) read
            (parse_oes-Holds oes),
      )
