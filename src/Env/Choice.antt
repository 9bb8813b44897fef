-- ===== src/Env/Choice.antt =====
-- amvp_oe_set_fips_validation_metadata of src/amvp_operating_env.c. The chosen module and operating
-- environment are indices; the context is not NULL.
use libamvp.Common.{
  ℕ, ◌+◌, ◌≡◌, ◌≢◌, Bool, true, ◌&&◌, Option, none, some, List, ◌==◌, if◌then◌else◌, get_elem?,
}
use libamvp.Result.{Result, success, invalid_arg, is_success}
use libamvp.Env.Types.{Env, Module, Oe}
use libamvp.Env.Tables.{find_module, find_oe}

-- The fields of `ctx->fips` that the choice sets or reads.
pub record Fips : Type 0 where
  pub metadata_loaded : Bool
  pub module_at : Option ℕ
  pub oe_at : Option ℕ

abbrev with_oe : Fips → Option ℕ → Result × Fips
with_oe fips none = (invalid_arg, fips)
with_oe fips (some k) = (success, record fips { oe_at = some k })

unfoldable pub choose_oe : Env → ℕ → Fips → Result × Fips
choose_oe env oe_id fips = if oe_id == 0 then (success, fips) else with_oe fips (find_oe env oe_id)

unfoldable pub choose_found : Env → ℕ → Fips → Option ℕ → Result × Fips
unfolding choose_oe
choose_found env oe_id fips none = (invalid_arg, fips)
choose_found env oe_id fips (some k) = choose_oe env oe_id (record fips { module_at = some k })

unfoldable pub choose_module : Env → ℕ → ℕ → Fips → Result × Fips
unfolding choose_found choose_oe
choose_module env module_id oe_id fips =
    if module_id == 0
    then choose_oe env oe_id fips
    else choose_found env oe_id fips (find_module env module_id)

-- A module that was found stays chosen where the operating environment is not found.
unfoldable pub set_fips_validation_metadata : Env → ℕ → ℕ → Fips → Result × Fips
unfolding choose_module
set_fips_validation_metadata env module_id oe_id fips =
    if fips.metadata_loaded
    then (if (module_id == 0) && (oe_id == 0)
        then (invalid_arg, fips)
        else choose_module env module_id oe_id fips)
    else (invalid_arg, fips)

module _ {A : Type 0} (id_of : A → ℕ) where
  -- The choice for an id: the old one for 0, else an entry of the table with that id.
  abbrev pub IsChoice : List A → ℕ → Option ℕ → Option ℕ → Type 0
  IsChoice xs id old new =
      (id ≡ 0 → new ≡ old)
      × (id ≢ 0 → (k : ℕ) × (x : A) × (new ≡ some k) × (get_elem? xs k ≡ some x) × (id_of x ≡ id))

-- After a success the choice is right.
abbrev Chooses : Env → ℕ → ℕ → Fips → Result × Fips → Type 0
Chooses env module_id oe_id fips (rv, new) =
    is_success rv ≡ true
    → IsChoice (λ (m : Module). m.id) env.modules module_id fips.module_at new.module_at
      × IsChoice (λ (o : Oe). o.id) env.oes oe_id fips.oe_at new.oe_at

abbrev Sound : Env → ℕ → ℕ → Fips → Result × Fips → Type 0
Sound env module_id oe_id fips (rv, new) =
    is_success rv ≡ true
    → (fips.metadata_loaded ≡ true)
      × (module_id + oe_id ≢ 0)
      × IsChoice (λ (m : Module). m.id) env.modules module_id fips.module_at new.module_at
      × IsChoice (λ (o : Oe). o.id) env.oes oe_id fips.oe_at new.oe_at
