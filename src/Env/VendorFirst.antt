-- ===== src/Env/VendorFirst.antt =====
-- A verification that succeeds has found the vendor.
use mathlib.Core.Path.{subst}
use libamvp.Common.{
  ℕ, ◌≡◌, refl, true, Option, none, some, if-split, if-both, is_some, get_elem?, Option-cases, inl,
  inr,
}
use libamvp.Result.{Result, success, is_success}
use libamvp.Protocol.Json.{Json}
use libamvp.Env.Types.{Field, Vendor, Module, Oe, Env}
use libamvp.Env.Pages.{Page, failed, found, onwards}
use libamvp.Env.Query.{Server, answered}
use libamvp.Env.VendorQuery.{Asked}
use libamvp.Env.Modules.{query_module, query_pages_of, module_answer, vendor_id}
use libamvp.Env.Verify.{
  Verified, finish_oe, verify_linked, after_dependencies, verify_oe_at, verify_fips_oe, all_some,
  linked_urls, with_table,
}
use libamvp.Env.Querying.{get_elem?-modify}
use libamvp.Env.Metadata.{
  Done, vendor_of, vendor_at, after_module, then_verify, after_vendor, verify_module_of,
  verify_fips_module, verify_fips_validation_metadata,
}

abbrev pub url_of : Option Vendor → Field
url_of none = none
url_of (some v) = v.url

-- The vendor of the module at `k`.
abbrev pub vendor_url : Env → ℕ → Field
vendor_url env k = url_of (vendor_at env (vendor_of (get_elem? env.modules k)))

abbrev pub HasVendor : {W : Type 0} → ℕ → Done W → Type 0
HasVendor k none = Unit
HasVendor k (some (rv, env, w)) = is_success rv ≡ true → is_some (vendor_url env k) ≡ true

-- A query of a module leaves its vendor.
abbrev KeepsVendor : {W : Type 0} → Option ℕ → Option (Result × Module × W) → Type 0
KeepsVendor j none = Unit
KeepsVendor j (some (rv, m, w)) = m.vendor ≡ j

-- The verification of an operating environment leaves the vendors and modules.
abbrev Leaves : {W : Type 0} → Env → Done W → Type 0
Leaves env none = Unit
Leaves env (some (rv, env', w)) = (env'.vendors ≡ env.vendors) × (env'.modules ≡ env.modules)

module_answer-KeepsVendor :
    {W : Type 0} (m : Module) (r : Option (Page × W))
    → KeepsVendor m.vendor (answered (module_answer m) r)
unfolding module_answer
module_answer-KeepsVendor m none = tt
module_answer-KeepsVendor m (some (failed rv, w)) = refl
module_answer-KeepsVendor m (some (found url, w)) = refl
module_answer-KeepsVendor m (some (onwards next, w)) = refl

-- The vendor of the module at `k` is the one at `j`.
module_at :
    {W : Type 0} (env : Env) (k j : ℕ) (old : Module) (vendor : Vendor)
    (r : Option (Result × Module × W))
    → get_elem? env.modules k ≡ some old
    → get_elem? env.vendors j ≡ some vendor
    → is_some vendor.url ≡ true
    → KeepsVendor (some j) r
    → HasVendor k (after_module env k r)
unfolding after_module
module_at env k j old vendor none at vat url keeps = tt
module_at env k j old vendor (some (rv, m, w)) at vat url keeps =
    λ ok. rw (get_elem?-modify env.modules k m old at, keeps, vat) url

module _ {Value Array Object W : Type 0} (json : Json Value Array Object) (server : Server W) where
  query_module-KeepsVendor :
      (fuel : ℕ) (m : Module) (v : Vendor) (w : W)
      → KeepsVendor m.vendor (query_module json server fuel m v w)
  unfolding query_module query_pages_of
  query_module-KeepsVendor fuel m v w =
      if-both (KeepsVendor m.vendor) (is_some m.url) refl (elim (Option-cases (vendor_id v.url)) [
        | inl e ↦ rw e tt
        | inr (id, e) ↦ rw e (module_answer-KeepsVendor m _)
      ])

  after_vendor-HasVendor :
      (fuel : ℕ) (env : Env) (k j : ℕ) (m : Module) (old : Vendor) (r : Asked W)
      → get_elem? env.modules k ≡ some m
      → m.vendor ≡ some j
      → get_elem? env.vendors j ≡ some old
      → HasVendor k (after_vendor json server fuel env k j m r)
  unfolding after_vendor
  after_vendor-HasVendor fuel env k j m old none at of vat = tt
  after_vendor-HasVendor fuel env k j m old (some (rv, vendor, w)) at of vat =
      if-split (HasVendor k) (is_success rv)
        (λ t.
          if-split (HasVendor k) (is_some vendor.url)
            (λ url.
              module_at _ k j m vendor _ at (get_elem?-modify env.vendors j vendor old vat) url (
                subst (λ i. KeepsVendor i (query_module json server fuel m vendor w)) of
                  (query_module-KeepsVendor fuel m vendor w)))
            (λ u ok. cc))
        (λ f ok. cc)

  verify_module_of-HasVendor :
      (fuel : ℕ) (env : Env) (k : ℕ) (m : Option Module) (j : Option ℕ) (v : Option Vendor) (w : W)
      → get_elem? env.modules k ≡ m
      → vendor_of m ≡ j
      → vendor_at env j ≡ v
      → HasVendor k (verify_module_of json server fuel env k m j v w)
  unfolding verify_module_of
  verify_module_of-HasVendor fuel env k (some m) (some j) (some v) w at of vat =
      after_vendor-HasVendor fuel env k j m v _ at of vat
  verify_module_of-HasVendor fuel env k none j v w at of vat = tt
  verify_module_of-HasVendor fuel env k (some m) none v w at of vat = tt
  verify_module_of-HasVendor fuel env k (some m) (some j) none w at of vat = tt

  finish_oe-Leaves :
      (env : Env) (k : ℕ) (r : Option (Result × Oe × W))
      → Leaves env (finish_oe server json env k r)
  unfolding finish_oe
  finish_oe-Leaves env k none = tt
  finish_oe-Leaves env k (some (rv, oe, w)) = (refl, refl)

  after_dependencies-Leaves :
      (fuel : ℕ) (env : Env) (k : ℕ) (oe : Oe) (r : Option (Verified W))
      → Leaves env (after_dependencies server json fuel env k oe r)
  unfolding after_dependencies verify_linked
  after_dependencies-Leaves fuel env k oe none = tt
  after_dependencies-Leaves fuel env k oe (some (rv, status, table, w)) =
      let env' = with_table env k oe status table in
      if-both (Leaves env) (is_success rv)
        (if-both (Leaves env) (all_some (linked_urls table oe.deps)) (finish_oe-Leaves env' k _)
          (refl, refl))
        (refl, refl)

  verify_oe_at-Leaves :
      (fuel : ℕ) (env : Env) (k : ℕ) (oe : Option Oe) (w : W)
      → Leaves env (verify_oe_at server json fuel env k oe w)
  unfolding verify_oe_at
  verify_oe_at-Leaves fuel env k none w = tt
  verify_oe_at-Leaves fuel env k (some oe) w = after_dependencies-Leaves fuel env k oe _

  -- The tables that were left still have the vendor.
  Leaves-HasVendor :
      (k : ℕ) (env : Env) (r : Done W)
      → Leaves env r
      → is_some (vendor_url env k) ≡ true
      → HasVendor k r
  Leaves-HasVendor k env none l h = tt
  Leaves-HasVendor k env (some (rv, env', w)) (l, m) h = λ ok. rw (l, m) h

  then_verify-HasVendor :
      (fuel k o : ℕ) (r : Done W)
      → HasVendor k r
      → HasVendor k (then_verify r (λ env w. verify_fips_oe server json fuel env o w))
  unfolding then_verify verify_fips_oe
  then_verify-HasVendor fuel k o none h = tt
  then_verify-HasVendor fuel k o (some (rv, env, w)) h =
      if-split (HasVendor k) (is_success rv)
        (λ t.
          Leaves-HasVendor k env _ (verify_oe_at-Leaves fuel env o (get_elem? env.oes o) w) (h t))
        (λ f ok. cc)

  -- When the verification of the metadata succeeds, then a module and an operating environment were
  -- chosen, and in the tables after it the vendor of the module has a URL.
  pub verify_fips_validation_metadata_vendor :
      (fuel : ℕ) (env : Env) (m o : Option ℕ) (w : W) (env' : Env) (w' : W)
      → verify_fips_validation_metadata json server fuel env m o w ≡ some (success, env', w')
      → (k : ℕ) × (m ≡ some k) × (is_some o ≡ true) × (is_some (vendor_url env' k) ≡ true)
  unfolding verify_fips_validation_metadata verify_fips_module
  verify_fips_validation_metadata_vendor fuel env none o w env' w' h = cc
  verify_fips_validation_metadata_vendor fuel env (some k) none w env' w' h = cc
  verify_fips_validation_metadata_vendor fuel env (some k) (some o) w env' w' h =
      let found =
        then_verify-HasVendor fuel k o _
          (verify_module_of-HasVendor fuel env k _ _ _ w refl refl refl) in
      let has : HasVendor k (some (success, env', w')) = subst (HasVendor k) h found in
      (k, refl, refl, has refl)
