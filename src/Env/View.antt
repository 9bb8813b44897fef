-- ===== src/Env/View.antt =====
-- The finite map that the dependency table stands for, and what its operations mean there.
use libamvp.Common.{
  ℕ, ◌||◌, Option, none, some, List, [], ◌∷◌, ◌==◌, if◌then◌else◌, length, is_some, leb,
}
use libamvp.Result.{Result, success, invalid_arg, missing_arg}
use libamvp.SafeC.Errno.{CStr, NoNul}
use libamvp.Env.Types.{Env, Dependency, new_dependency}
use libamvp.Env.Tables.{dependency_new, DependencyField, put_dependency_field, dependency_set_field}
use libamvp.Env.Lookup.{entry_of}

-- The abstract table.
abbrev pub View : Type 0
View = ℕ → Option Dependency

abbrev pub id_of : Dependency → ℕ
id_of d = d.id

unfoldable pub view : Env → View
unfolding entry_of
view env id = if id == 0 then none else entry_of id_of id env.dependencies

abbrev pub update : View → ℕ → Option Dependency → View
update v id d j = if j == id then d else v j

pub data TableOp : Type 0 where
  create : ℕ → TableOp
  set : DependencyField → ℕ → Option CStr → TableOp

-- A field of an entry that is there takes a string of up to 256 bytes.
abbrev pub spec_set : DependencyField → ℕ → Option CStr → View → Option Dependency → Result × View
spec_set field id value v none = (invalid_arg, v)
spec_set field id none v (some d) = (missing_arg, v)
spec_set field id (some s) v (some d) =
    if leb (length s) 256
    then (success, update v id (some (put_dependency_field field (some s) d)))
    else (invalid_arg, v)

-- What an operation means for the map.
unfoldable pub spec : TableOp → View → Result × View
spec (create id) v =
    if id == 0 || is_some (v id)
    then (invalid_arg, v)
    else (success, update v id (some (new_dependency id)))
spec (set field id value) v = spec_set field id value v (v id)

unfoldable pub perform : TableOp → Env → Result × Env
unfolding dependency_new dependency_set_field
perform (create id) env = dependency_new env id
perform (set field id value) env = dependency_set_field env field id value

-- The results of a sequence of operations, and the table after it.
unfoldable pub performs : List TableOp → Env → List Result × Env
unfolding perform
performs [] env = ([], env)
performs (op ∷ ops) env =
    let (r, env') = perform op env in let (rs, last) = performs ops env' in (r ∷ rs, last)

unfoldable pub specs : List TableOp → View → List Result × View
unfolding spec
specs [] v = ([], v)
specs (op ∷ ops) v = let (r, v') = spec op v in let (rs, last) = specs ops v' in (r ∷ rs, last)

-- The strings of an operation have no terminator in them.
abbrev pub IsOp : TableOp → Type 0
IsOp (create id) = Unit
IsOp (set field id none) = Unit
IsOp (set field id (some s)) = NoNul s
