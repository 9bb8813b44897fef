-- ===== src/Env/Metadata.antt =====
-- verify_fips_module and amvp_verify_fips_validation_metadata of src/amvp_operating_env.c. The
-- chosen module and operating environment are indices; `none` is a pointer that leads nowhere, or
-- a loop that has not ended on its fuel.
use libamvp.Common.{ℕ, Option, none, some, if◌then◌else◌, is_some, get_elem?, modify}
use libamvp.Result.{Result, invalid_arg, unsupported_op, is_success}
use libamvp.Protocol.Json.{Json}
use libamvp.Env.Types.{Vendor, Module, Env}
use libamvp.Env.Query.{Server}
use libamvp.Env.VendorQuery.{query_vendor, Asked}
use libamvp.Env.Modules.{query_module}
use libamvp.Env.Verify.{verify_fips_oe}

abbrev pub Done : Type 0 → Type 0
Done W = Option (Result × Env × W)

abbrev pub vendor_of : Option Module → Option ℕ
vendor_of none = none
vendor_of (some m) = m.vendor

abbrev pub vendor_at : Env → Option ℕ → Option Vendor
vendor_at env none = none
vendor_at env (some j) = get_elem? env.vendors j

unfoldable pub after_module : {W : Type 0} → Env → ℕ → Option (Result × Module × W) → Done W
after_module env k none = none
after_module env k (some (rv, m, w)) =
    some (rv, record env { modules = modify env.modules k (λ (x : Module). m) }, w)

-- The rest of a verification runs after a success.
unfoldable pub then_verify : {W : Type 0} → Done W → (Env → W → Done W) → Done W
then_verify none next = none
then_verify (some (rv, env, w)) next =
    let more = next env w in if is_success rv then more else some (rv, env, w)

module _ {Value Array Object W : Type 0} (json : Json Value Array Object) (server : Server W) where
  -- A vendor that the server does not have is an error.
  unfoldable pub after_vendor : ℕ → Env → ℕ → ℕ → Module → Asked W → Done W
  unfolding after_module
  after_vendor fuel env k j m none = none
  after_vendor fuel env k j m (some (rv, vendor, w)) =
      let env' = record env { vendors = modify env.vendors j (λ (x : Vendor). vendor) } in
      let asked = after_module env' k (query_module json server fuel m vendor w) in
      if is_success rv
      then (if is_some vendor.url then asked else some (invalid_arg, env', w))
      else some (rv, env', w)

  unfoldable pub verify_module_of :
      ℕ → Env → ℕ → Option Module → Option ℕ → Option Vendor → W → Done W
  unfolding after_vendor
  verify_module_of fuel env k (some m) (some j) (some vendor) w =
      after_vendor fuel env k j m (query_vendor json server fuel vendor w)
  verify_module_of fuel env k m j vendor w = none

  unfoldable pub verify_fips_module : ℕ → Env → ℕ → W → Done W
  unfolding verify_module_of
  verify_fips_module fuel env k w =
      let m = get_elem? env.modules k in
      verify_module_of fuel env k m (vendor_of m) (vendor_at env (vendor_of m)) w

  unfoldable pub verify_fips_validation_metadata : ℕ → Env → Option ℕ → Option ℕ → W → Done W
  unfolding verify_fips_module then_verify
  verify_fips_validation_metadata fuel env none oe w = some (unsupported_op, env, w)
  verify_fips_validation_metadata fuel env (some k) none w = some (unsupported_op, env, w)
  verify_fips_validation_metadata fuel env (some k) (some oe) w =
      then_verify (verify_fips_module fuel env k w)
        (λ env' v. verify_fips_oe server json fuel env' oe v)
