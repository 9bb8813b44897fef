-- ===== src/Env/Querying.antt =====
-- An operating environment is looked up only after all of its dependencies.
use mathlib.Core.Path.{subst}
use libamvp.Common.{
  ℕ, zero, suc, ◌≡◌, refl, true, false, ap, arith, Option, none, some, List, [], ◌∷◌, modify,
  get_elem?, if-split,
}
use libamvp.Result.{Result, is_success, is_success-eq}
use libamvp.Protocol.Json.{Json}
use libamvp.Env.Types.{Status, Oe, Env}
use libamvp.Env.Query.{Server}
use libamvp.Env.Verify.{
  Verified, finish_oe, verify_linked, after_dependencies, verify_oe_at, verify_fips_oe, all_some,
  linked_urls, with_table, with_status, verify_fips_oe_dependencies,
}

pub get_elem?-modify :
    {A : Type 0} (xs : List A) (k : ℕ) (new old : A)
    → get_elem? xs k ≡ some old
    → get_elem? (modify xs k (λ x. new)) k ≡ some new
get_elem?-modify [] k new old h = cc
get_elem?-modify (x ∷ xs) zero new old h = refl
get_elem?-modify (x ∷ xs) (suc k) new old h = get_elem?-modify xs k new old h

module _ {W Value Array Object : Type 0} (server : Server W) (json : Json Value Array Object)
    (fuel : ℕ) (env : Env) (k : ℕ) (oe : Oe) where
  -- Nothing but the dependencies was verified: the result, their table and the state of all that is
  -- outside are those after them, and the environment at `k` has a new status.
  abbrev Unqueried : Option (Verified W) → Result × Env × W → Type 0
  Unqueried verified (rv, env', w) =
      (status : Status) × (verified ≡ some (rv, status, env'.dependencies, w))
      × (get_elem? env'.oes k ≡ some (with_status oe status))

  -- A dependency without a URL leaves the environment unqueried.
  abbrev Ordered : Option (Verified W) → Option (Result × Env × W) → Type 0
  Ordered verified none = Unit
  Ordered verified (some (rv, env', w)) =
      all_some (linked_urls env'.dependencies oe.deps) ≡ false → Unqueried verified (rv, env', w)

  finish_oe-Ordered :
      (env1 : Env) (verified : Option (Verified W)) (r : Option (Result × Oe × W))
      → all_some (linked_urls env1.dependencies oe.deps) ≡ true
      → Ordered verified (finish_oe server json env1 k r)
  unfolding finish_oe
  finish_oe-Ordered env1 verified none h = tt
  finish_oe-Ordered env1 verified (some (rv, oe', w)) h = λ e. ground (arith, h, e)

  after_dependencies-Ordered :
      (r : Option (Verified W))
      → get_elem? env.oes k ≡ some oe
      → Ordered r (after_dependencies server json fuel env k oe r)
  unfolding after_dependencies verify_linked
  after_dependencies-Ordered none at = tt
  after_dependencies-Ordered (some (rv, status, table, w)) at =
      let kept = get_elem?-modify env.oes k (with_status oe status) oe at in
      if-split (Ordered (some (rv, status, table, w))) (is_success rv)
        (λ t.
          if-split (Ordered (some (rv, status, table, w))) (all_some (linked_urls table oe.deps))
            (finish_oe-Ordered (with_table env k oe status table) _ _)
            (λ f e. (status, ap (λ v. some (v, status, table, w)) (is_success-eq rv t), kept)))
        (λ f e. (status, refl, kept))

-- Whatever verify_fips_oe returns, if a dependency of the environment has no URL in the tables after
-- it, then the environment was not looked up: the result, the table of dependencies and the state
-- of all that is outside are those of verify_fips_oe_dependencies, and of the environment only its
-- status is set, so that one without a URL has none still.
pub verify_fips_oe_order :
    {W Value Array Object : Type 0} (server : Server W) (json : Json Value Array Object) (fuel : ℕ)
    (env : Env) (k : ℕ) (w : W) (oe : Oe) (rv : Result) (env' : Env) (w' : W)
    → get_elem? env.oes k ≡ some oe
    → verify_fips_oe server json fuel env k w ≡ some (rv, env', w')
    → all_some (linked_urls env'.dependencies oe.deps) ≡ false
    → (status : Status) × (verify_fips_oe_dependencies server json fuel oe.deps env.dependencies w
        ≡ some (rv, status, env'.dependencies, w'))
      × (get_elem? env'.oes k ≡ some (with_status oe status))
unfolding verify_fips_oe verify_oe_at
verify_fips_oe_order server json fuel env k w oe rv env' w' at h missing =
    let tables = verify_fips_oe_dependencies server json fuel oe.deps env.dependencies w in
    let found : after_dependencies server json fuel env k oe tables ≡ some (rv, env', w') =
      subst (λ (o : Option Oe). verify_oe_at server json fuel env k o w ≡ some (rv, env', w')) at
        h in
    let ordered : Ordered server json fuel env k oe tables (some (rv, env', w')) =
      subst (Ordered server json fuel env k oe tables) found
        (after_dependencies-Ordered server json fuel env k oe tables at) in
    ordered missing
