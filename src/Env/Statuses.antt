-- ===== src/Env/Statuses.antt =====
-- The status that the verification of the dependencies leaves.
use mathlib.Core.Path.{subst}
use libamvp.Common.{
  ℕ, zero, suc, ◌<◌, ◌≡◌, ◌≢◌, ◌⊎◌, inl, inr, refl, Bool, true, false, Option, none, some, List, [],
  ◌∷◌, All, Any, length, modify, get_elem?, is_some, if-split, if◌then◌else◌, arith, ◌==◌,
  Bool-cases, Option-cases,
}
use libamvp.Result.{Result, success, is_success}
use libamvp.Protocol.Json.{Json}
use libamvp.Env.Types.{Field, Status, complete, partial, incomplete, Dependency}
use libamvp.Env.Query.{Server, query_dependency}
use libamvp.Env.Verify.{
  Rest, Verified, after_query, query_linked, verify_loop, verify_fips_oe_dependencies, linked_url,
}

abbrev pub HasUrl : List Dependency → ℕ → Type 0
HasUrl table d = is_some (linked_url table d) ≡ true

abbrev pub HasNoUrl : List Dependency → ℕ → Type 0
HasNoUrl table d = is_some (linked_url table d) ≡ false

modify-linked_url :
    (table : List Dependency) (d : ℕ) (dep old : Dependency)
    → get_elem? table d ≡ some old
    → (x : ℕ)
    → linked_url (modify table d (λ (y : Dependency). dep)) x
      ≡ (if x == d then dep.url else linked_url table x)
modify-linked_url [] d dep old h x = cc
modify-linked_url (y ∷ table) zero dep old h zero = refl
modify-linked_url (y ∷ table) zero dep old h (suc x) = ground arith
modify-linked_url (y ∷ table) (suc d) dep old h zero = ground arith
modify-linked_url (y ∷ table) (suc d) dep old h (suc x) =
    ground (arith, modify-linked_url table d dep old h x)

-- The step from the flags and the table before the loop over `deps` to the status and the table
-- after it.
pub record IsJudged (all_incomplete : Bool) (status : Status) (table : List Dependency)
    (deps : List ℕ) (final : Status) (after : List Dependency) : Type 0 where
  gains : (x : ℕ) → HasUrl table x → HasUrl after x
  if_complete :
      final ≡ complete
      → (status ≡ complete)
        × All (HasUrl after) deps
        × ((all_incomplete ≡ false) ⊎ (0 < length deps))
  if_incomplete :
      final ≡ incomplete
      → (all_incomplete ≡ true)
        × All (HasNoUrl after) deps
        × ((x : ℕ) → HasNoUrl table x → HasNoUrl after x)
  if_partial : final ≡ partial → all_incomplete ≡ true → Any (HasUrl after) deps

abbrev pub Judged :
    {W : Type 0} → Bool → Status → List Dependency → List ℕ → Option (Verified W) → Type 0
Judged all_incomplete status table deps none = Unit
Judged all_incomplete status table deps (some (rv, final, after, w)) =
    rv ≡ success → IsJudged all_incomplete status table deps final after

Judged-map :
    {W : Type 0} {a b : Bool} {st st' : Status} {t t' : List Dependency} {ds ds' : List ℕ}
    (o : Option (Verified W))
    → ((final : Status) (after : List Dependency)
        → IsJudged a st t ds final after
        → IsJudged b st' t' ds' final after)
    → Judged a st t ds o
    → Judged b st' t' ds' o
Judged-map none f h = tt
Judged-map (some (rv, final, after, w)) f h = λ e. f final after (h e)

not_known :
    (old new : Field)
    → (is_some old ≡ true → is_some new ≡ true)
    → is_some new ≡ false
    → is_some old ≡ false
not_known none new h k = refl
not_known (some s) new h k = let e = h refl in cc

none_left :
    (all_incomplete : Bool) (status : Status) (table : List Dependency)
    → status ≢ incomplete
    → IsJudged all_incomplete status table [] (if all_incomplete then incomplete else status) table
none_left true status table ok = record {
  gains = λ x h. h;
  if_complete = λ e. cc;
  if_incomplete = λ e. (refl, tt, λ x h. h);
  if_partial = λ e. cc;
}
none_left false status table ok = record {
  gains = λ x h. h;
  if_complete = λ e. (e, tt, inl refl);
  if_incomplete = λ e. absurd (ok e);
  if_partial = λ e h. cc;
}

-- A dependency that has a URL.
one_found :
    (all_incomplete : Bool) (status final : Status) (table after : List Dependency) (d : ℕ)
    (deps : List ℕ) (dep old : Dependency)
    → get_elem? table d ≡ some old
    → is_some dep.url ≡ true
    → IsJudged false status (modify table d (λ (x : Dependency). dep)) deps final after
    → IsJudged all_incomplete status table (d ∷ deps) final after
one_found all_incomplete status final table after d deps dep old at u j =
    let moved = modify-linked_url table d dep old at in
    let here_url = j.gains d (ground (arith, moved d, u)) in
    record {
      gains = λ x h. j.gains x (ground (arith, moved x, u, h));
      if_complete =
          λ e. let (c, urls, n) = j.if_complete e in (c, (here_url, urls), inr (omega arith));
      if_incomplete = λ e. let (f, urls, keeps) = j.if_incomplete e in cc;
      if_partial = λ e h. inl here_url;
    }

-- A dependency that the server does not have.
one_missing :
    (all_incomplete : Bool) (status final : Status) (table after : List Dependency) (d : ℕ)
    (deps : List ℕ) (dep old : Dependency)
    → get_elem? table d ≡ some old
    → is_some dep.url ≡ false
    → is_some old.url ≡ false
    → IsJudged all_incomplete partial (modify table d (λ (x : Dependency). dep)) deps final after
    → IsJudged all_incomplete status table (d ∷ deps) final after
one_missing all_incomplete status final table after d deps dep old at u v j =
    let moved = modify-linked_url table d dep old at in
    let before : linked_url table d ≡ old.url = rw at refl in
    record {
      gains = λ x h. j.gains x (elim (Bool-cases (x == d)) [
        | inl e ↦ let same : x ≡ d = ground arith in ground (arith, h, same, before, v)
        | inr e ↦ ground (arith, moved x, h, e)
      ]);
      if_complete = λ e. let (c, urls, n) = j.if_complete e in cc;
      if_incomplete = λ e.
          let (f, urls, keeps) = j.if_incomplete e in
          (
            f,
            (keeps d (ground (arith, moved d, u)), urls),
            λ x h. keeps x (ground (arith, moved x, u, h)),
          );
      if_partial = λ e h. inr (j.if_partial e h);
    }

module _ {W Value Array Object : Type 0} (server : Server W) (json : Json Value Array Object) where
  -- A URL that was known is kept.
  keeps_url :
      (fuel : ℕ) (dep : Dependency) (w : W) (r : Result × Dependency × W)
      → query_dependency server json fuel dep w ≡ some r
      → is_some dep.url ≡ true
      → is_some r.1.url ≡ true
  unfolding query_dependency
  keeps_url fuel dep w (rv, dep', v) h k =
      let same : dep ≡ dep' = ground arith in ground (arith, same, k)

  after_query-Judged :
      (d : ℕ) (all_incomplete : Bool) (status : Status) (table : List Dependency) (old : Dependency)
      (deps : List ℕ) (r : Option (Result × Dependency × W)) (rest : Rest W)
      → get_elem? table d ≡ some old
      → status ≢ incomplete
      → ((q : Result × Dependency × W)
          → r ≡ some q
          → is_some old.url ≡ true
          → is_some q.1.url ≡ true)
      → ((b : Bool) (st : Status) (dep : Dependency) (w : W)
          → st ≢ incomplete
          → Judged b st
              (modify table d (λ (x : Dependency). dep))
              deps
              (rest b st (modify table d (λ (x : Dependency). dep)) w))
      → Judged all_incomplete status table
          (d ∷ deps)
          (after_query d all_incomplete status table r rest)
  unfolding after_query
  after_query-Judged d all_incomplete status table old deps none rest at ok kept more = tt
  after_query-Judged d all_incomplete status table old deps (some (rv, dep, w)) rest at ok kept
        more =
      let answered = modify table d (λ (x : Dependency). dep) in
      if-split (Judged all_incomplete status table (d ∷ deps)) (is_success rv)
        (λ t. elim (Bool-cases (is_some dep.url)) [
          | inl u ↦ rw u (
              Judged-map _ (λ f a. one_found all_incomplete status f table a d deps dep old at u)
                (more false status dep w ok))
          | inr u ↦
              let missing = not_known old.url dep.url (kept (rv, dep, w) refl) u in
              rw u (
                Judged-map _
                  (λ f a. one_missing all_incomplete status f table a d deps dep old at u missing)
                  (more all_incomplete partial dep w (λ e. cc)))
        ])
        (λ f e. cc)

  verify_loop-Judged :
      (fuel : ℕ) (deps : List ℕ) (all_incomplete : Bool) (status : Status) (table : List Dependency)
      (w : W)
      → status ≢ incomplete
      → Judged all_incomplete status table deps
          (verify_loop server json fuel deps all_incomplete status table w)
  unfolding verify_loop query_linked
  verify_loop-Judged fuel [] all_incomplete status table w ok =
      λ e. none_left all_incomplete status table ok
  verify_loop-Judged fuel (d ∷ deps) all_incomplete status table w ok =
      elim (Option-cases (get_elem? table d)) [
        | inl e ↦ rw e tt
        | inr (old, e) ↦ rw e (
            after_query-Judged d all_incomplete status table old deps _ _ e ok
              (keeps_url fuel old w)
              (λ b st dep v.
                verify_loop-Judged fuel deps b st (modify table d (λ (x : Dependency). dep)) v))
      ]

  -- When the verification of the dependencies of an operating environment succeeds: where the
  -- status is complete, there are dependencies and each of them has a URL; where it is incomplete,
  -- none of them has one; where it is partial, some dependency has a URL.
  pub verify_fips_oe_dependencies_status :
      (fuel : ℕ) (deps : List ℕ) (table : List Dependency) (w : W) (status : Status)
      (after : List Dependency) (w' : W)
      → verify_fips_oe_dependencies server json fuel deps table w
        ≡ some (success, status, after, w')
      → (status ≡ complete → (0 < length deps) × All (HasUrl after) deps)
        × (status ≡ incomplete → All (HasNoUrl after) deps)
        × (status ≡ partial → Any (HasUrl after) deps)
  unfolding verify_fips_oe_dependencies
  verify_fips_oe_dependencies_status fuel deps table w status after w' h =
      let judged : Judged true complete table deps (some (success, status, after, w')) =
        subst (Judged true complete table deps) h
          (verify_loop-Judged fuel deps true complete table w (λ e. cc)) in
      let j = judged refl in
      (
        λ e. let (c, urls, n) = j.if_complete e in (elim n [ inl f ↦ cc | inr k ↦ k ], urls),
        λ e. (j.if_incomplete e).1,
        λ e. j.if_partial e refl,
      )
