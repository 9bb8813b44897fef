-- ===== src/Env/Verifying.antt =====
-- The verification of an operating environment ends.
use mathlib.Core.Path.{subst}
use libamvp.Common.{
  ℕ, zero, suc, ◌<◌, ◌≡◌, refl, Bool, true, Option, none, some, List, [], ◌∷◌, All, length,
  length-modify, modify, get_elem?, is_some, if-both, arith,
}
use libamvp.Result.{Result, is_success}
use libamvp.SafeC.Errno.{CStr}
use libamvp.Protocol.Json.{Json}
use libamvp.Env.Types.{Status, complete, Dependency, Oe, Env}
use libamvp.Env.Query.{Server}
use libamvp.Env.Verify.{
  Rest, Verified, after_query, query_linked, verify_loop, verify_fips_oe_dependencies, finish_oe,
  verify_linked, after_dependencies, verify_oe_at, verify_fips_oe, with_table, with_status,
  all_some, linked_urls,
}
use libamvp.Env.Valid.{IsValid, IsLinked}
use libamvp.Env.Ending.{IsPaged, query_dependency_ends, query_oe_ends}

get_elem?-All :
    {A : Type 0} (P : A → Type 0) (xs : List A) (k : ℕ) (x : A)
    → All P xs
    → get_elem? xs k ≡ some x
    → P x
get_elem?-All P [] k x h e = cc
get_elem?-All P (y ∷ xs) zero x h e = let same : y ≡ x = cc in subst P same h.0
get_elem?-All P (y ∷ xs) (suc k) x h e = get_elem?-All P xs k x h.1 e

pub get_elem?-is_some :
    {A : Type 0} (xs : List A) (k : ℕ) → k < length xs → is_some (get_elem? xs k) ≡ true
get_elem?-is_some [] k h = absurd (omega arith)
get_elem?-is_some (x ∷ xs) zero h = refl
get_elem?-is_some (x ∷ xs) (suc k) h = get_elem?-is_some xs k (omega arith)

module _ {Value Array Object W : Type 0} (json : Json Value Array Object) (server : Server W)
    (rank : CStr → ℕ) (bound : ℕ) (paged : IsPaged json server rank bound) where
  query_linked_ends :
      (dep : Option Dependency) (w : W)
      → is_some dep ≡ true
      → is_some (query_linked server json bound dep w) ≡ true
  unfolding query_linked
  query_linked_ends none w h = h
  query_linked_ends (some dep) w h = query_dependency_ends json server rank bound paged dep w

  after_query_ends :
      (d : ℕ) (all_incomplete : Bool) (status : Status) (table : List Dependency)
      (r : Option (Result × Dependency × W)) (rest : Rest W)
      → is_some r ≡ true
      → ((b : Bool) (st : Status) (dep : Dependency) (w : W)
          → is_some (rest b st (modify table d (λ (x : Dependency). dep)) w) ≡ true)
      → is_some (after_query d all_incomplete status table r rest) ≡ true
  unfolding after_query
  after_query_ends d all_incomplete status table none rest h more = cc
  after_query_ends d all_incomplete status table (some (rv, dep, w)) rest h more =
      if-both {A = Option (Verified W)} (λ r. is_some r ≡ true) (is_success rv) (more _ _ dep w)
        refl

  verify_loop_ends :
      (deps : List ℕ) (all_incomplete : Bool) (status : Status) (table : List Dependency) (w : W)
      → All (λ d. d < length table) deps
      → is_some (verify_loop server json bound deps all_incomplete status table w) ≡ true
  unfolding verify_loop
  verify_loop_ends [] all_incomplete status table w h = refl
  verify_loop_ends (d ∷ deps) all_incomplete status table w h =
      after_query_ends d all_incomplete status table _ _
        (query_linked_ends _ w (get_elem?-is_some table d h.0))
        (λ b st dep v.
          verify_loop_ends deps b st (modify table d (λ (x : Dependency). dep)) v
            (rw (length-modify table d (λ (x : Dependency). dep)) h.1))

  finish_oe_ends :
      (env : Env) (k : ℕ) (r : Option (Result × Oe × W))
      → is_some r ≡ true
      → is_some (finish_oe server json env k r) ≡ true
  unfolding finish_oe
  finish_oe_ends env k none h = h
  finish_oe_ends env k (some (rv, oe, w)) h = refl

  verify_linked_ends :
      (env : Env) (k : ℕ) (oe : Oe) (w : W)
      → is_some (verify_linked server json bound env k oe w) ≡ true
  unfolding verify_linked
  verify_linked_ends env k oe w =
      if-both {A = Option (Result × Env × W)} (λ r. is_some r ≡ true)
        (all_some (linked_urls env.dependencies oe.deps))
        (finish_oe_ends env k _ (query_oe_ends json server rank bound paged _ oe w)) refl

  after_dependencies_ends :
      (env : Env) (k : ℕ) (oe : Oe) (r : Option (Verified W))
      → is_some r ≡ true
      → is_some (after_dependencies server json bound env k oe r) ≡ true
  unfolding after_dependencies
  after_dependencies_ends env k oe none h = h
  after_dependencies_ends env k oe (some (rv, status, table, w)) h =
      if-both {A = Option (Result × Env × W)} (λ r. is_some r ≡ true) (is_success rv)
        (verify_linked_ends (with_table env k oe status table) k (with_status oe status) w) refl

  verify_oe_at_ends :
      (env : Env) (k : ℕ) (oe : Option Oe) (w : W)
      → IsValid env
      → get_elem? env.oes k ≡ oe
      → is_some oe ≡ true
      → is_some (verify_oe_at server json bound env k oe w) ≡ true
  unfolding verify_oe_at verify_fips_oe_dependencies
  verify_oe_at_ends env k none w v e h = h
  verify_oe_at_ends env k (some oe) w v e h =
      let links = get_elem?-All (IsLinked (length env.dependencies)) env.oes k oe v.linked e in
      after_dependencies_ends env k oe _
        (verify_loop_ends oe.deps true complete env.dependencies w links.0)

  -- In tables that keep their invariant, and with a server whose pages end, so that the next page
  -- has a smaller rank and no rank reaches the bound, the verification of each operating
  -- environment ends, with at most `bound` pages for a query, and with a result.
  pub verify_fips_oe_ends :
      (env : Env) (k : ℕ) (w : W)
      → IsValid env
      → k < length env.oes
      → is_some (verify_fips_oe server json bound env k w) ≡ true
  unfolding verify_fips_oe
  verify_fips_oe_ends env k w v h =
      verify_oe_at_ends env k _ w v refl (get_elem?-is_some env.oes k h)
