-- ===== src/Env/Matching.antt =====
-- What a match in a page of the server means.
use Prim.Native.Nat.{Ordering}
use libamvp.Common.{
  ℕ, zero, suc, ◌+◌, ◌<◌, ◌≤◌, ◌≡◌, ◌↔◌, refl, ap, sym, true, false, Option, none, some, arith,
  codes, is_some, Bool-cases, inl, inr,
}
use libamvp.SafeC.Errno.{CStr, rsize_max_str}
use libamvp.SafeC.Compare.{strcmp, strcmp_s}
use libamvp.SafeC.Comparisons.{strcmp_iff, strcmp_s_ok, strcmp-eq}
use libamvp.Util.StringList.{is_equal}
use libamvp.Protocol.Json.{Json}
use libamvp.Env.Types.{Field, Dependency, oe_str_max, new_dependency}
use libamvp.Env.Pages.{
  equal_fields, compare_dependencies, Page, failed, found, onwards, next_page, links_page,
  read_dependency, read_field, forget_read, dependency_entry, dependencies_loop, dependencies_in,
  dependencies_page, dependencies_value, match_dependencies_page, get_obj_from_rsp,
}

is_equal_iff : (o : Ordering) → (is_equal o ≡ true) ↔ (o ≡ Ordering.eq)
is_equal_iff Ordering.lt = (λ h. cc, λ h. cc)
is_equal_iff Ordering.eq = (λ h. refl, λ h. refl)
is_equal_iff Ordering.gt = (λ h. cc, λ h. cc)

pub strings_iff :
    (s t : CStr) (n : ℕ)
    → 0 < n
    → n ≤ rsize_max_str
    → (is_equal (strcmp_s (some s) n (some t) Ordering.eq).1 ≡ true) ↔ (s ≡ t)
strings_iff s t n p q = rw (strcmp_s_ok s t n Ordering.eq p q) (
  λ h. strcmp-eq s t ((is_equal_iff (strcmp s t)).0 h),
  λ h. (is_equal_iff (strcmp s t)).1 ((strcmp_iff s t).1 h),
)

equal_fields_iff : (a b : Field) → (equal_fields a b ≡ true) ↔ (a ≡ b)
unfolding equal_fields
equal_fields_iff none none = (λ h. refl, λ h. refl)
equal_fields_iff none (some t) = (λ h. cc, λ h. cc)
equal_fields_iff (some s) none = (λ h. cc, λ h. cc)
equal_fields_iff (some s) (some t) =
    let (to, from) = strings_iff s t oe_str_max (omega arith) (omega arith) in
    (λ h. ap some (to h), λ h. from cc)

-- Two dependencies compare as equal exactly when both have a name and the type, description,
-- series, family, version and manufacturer of one are those of the other, where a string that is
-- absent equals only a string that is absent; the names need not be the same.
pub compare_dependencies_decides :
    (a b : Dependency)
    → (compare_dependencies a b ≡ true) ↔ (
        (is_some a.name ≡ true)
        × (is_some b.name ≡ true)
        × (a.type ≡ b.type)
        × (a.description ≡ b.description)
        × (a.series ≡ b.series)
        × (a.family ≡ b.family)
        × (a.version ≡ b.version)
        × (a.manufacturer ≡ b.manufacturer))
unfolding compare_dependencies
compare_dependencies_decides a b =
    let e1 = equal_fields_iff a.type b.type in
    let e2 = equal_fields_iff a.description b.description in
    let e3 = equal_fields_iff a.series b.series in
    let e4 = equal_fields_iff a.family b.family in
    let e5 = equal_fields_iff a.version b.version in
    let e6 = equal_fields_iff a.manufacturer b.manufacturer in
    (
      λ h. (
        ground arith,
        ground arith,
        e1.0 (ground arith),
        e2.0 (ground arith),
        e3.0 (ground arith),
        e4.0 (ground arith),
        e5.0 (ground arith),
        e6.0 (ground arith),
      ),
      λ (h1, h2, k1, k2, k3, k4, k5, k6).
          rw (h1, h2, e1.1 k1, e2.1 k2, e3.1 k3, e4.1 k4, e5.1 k5, e6.1 k6) refl,
    )

-- A page in which no entry matches, or that is in error.
abbrev pub IsUnmatched : Page → Type 0
IsUnmatched (found url) = ⊥
IsUnmatched (failed rv) = Unit
IsUnmatched (onwards next) = Unit

module _ {Value Array Object : Type 0} (json : Json Value Array Object) where
  open json use {
    parse_string, get_count, get_object, get_string, get_array_of, get_string_at, get_object_of,
  }

  links_page-IsUnmatched : (obj : Object) → IsUnmatched (links_page json obj)
  unfolding links_page next_page
  links_page-IsUnmatched obj =
      elim (get_object_of obj (codes "links")) as (λ o. IsUnmatched (next_page json o)) [
        | none ↦ tt
        | some links ↦ tt
      ]

  -- Two dependencies of which only one has a series.
  series_differ :
      (dep tmp : Dependency)
      → dep.series ≡ none
      → is_some tmp.series ≡ true
      → compare_dependencies dep tmp ≡ false
  series_differ dep tmp h k = elim (Bool-cases (compare_dependencies dep tmp)) [
    | inl e ↦
        let same = (compare_dependencies_decides dep tmp).0 e in
        let lost : is_some dep.series ≡ true = rw same.4 k in
        let absent : is_some dep.series ≡ false = rw h refl in cc
    | inr e ↦ e
  ]

  read_series :
      (entry : Object) (tmp : Dependency)
      → is_some tmp.series ≡ true
      → is_some (read_dependency json entry tmp).series ≡ true
  unfolding read_dependency
  read_series entry tmp h =
      elim (get_string entry (codes "series")) as (λ s. is_some (read_field tmp.series s) ≡ true) [
        | none ↦ h
        | some s ↦ refl
      ]

  dependency_entry-IsUnmatched :
      (dep : Dependency) (entry : Option Object) (tmp : Dependency) (next : Dependency → Page)
      → dep.series ≡ none
      → ((o : Object) → entry ≡ some o → is_some (read_dependency json o tmp).series ≡ true)
      → ((t : Dependency) → is_some t.series ≡ true → IsUnmatched (next t))
      → IsUnmatched (dependency_entry json dep entry tmp next)
  unfolding dependency_entry forget_read
  dependency_entry-IsUnmatched dep none tmp next h k more = tt
  dependency_entry-IsUnmatched dep (some entry) tmp next h k more =
      rw (series_differ dep (read_dependency json entry tmp) h (k entry refl))
        (more _ (k entry refl))

  dependencies_loop-IsUnmatched :
      (dep : Dependency) (n i : ℕ) (arr : Array) (obj : Object) (tmp : Dependency)
      → dep.series ≡ none
      → is_some tmp.series ≡ true
      → IsUnmatched (dependencies_loop json dep n i arr obj tmp)
  unfolding dependencies_loop
  dependencies_loop-IsUnmatched dep zero i arr obj tmp h k = links_page-IsUnmatched obj
  dependencies_loop-IsUnmatched dep (suc n) i arr obj tmp h k =
      dependency_entry-IsUnmatched dep (get_object arr i) tmp _ h (λ o e. read_series o tmp k)
        (λ t. dependencies_loop-IsUnmatched dep n (i + 1) arr obj t h)

  read_given :
      (entry : Object) (tmp : Dependency) (series : CStr)
      → get_string entry (codes "series") ≡ some series
      → is_some (read_dependency json entry tmp).series ≡ true
  unfolding read_dependency
  read_given entry tmp series s = rw s refl

  first_stale :
      (dep : Dependency) (n : ℕ) (arr : Array) (obj : Object) (entry : Object) (series : CStr)
      → get_object arr 0 ≡ some entry
      → get_string entry (codes "series") ≡ some series
      → dep.series ≡ none
      → IsUnmatched (dependencies_loop json dep n 0 arr obj (new_dependency 0))
  unfolding dependencies_loop
  first_stale dep zero arr obj entry series e s h = links_page-IsUnmatched obj
  first_stale dep (suc n) arr obj entry series e s h =
      dependency_entry-IsUnmatched dep (get_object arr 0) (new_dependency 0) _ h
        (λ o q.
          let same : entry ≡ o = cc in read_given o (new_dependency 0) series (rw (sym same) s))
        (λ t. dependencies_loop-IsUnmatched dep n 1 arr obj t h)

  -- Of a page whose first entry has a series, a dependency without a series is found in no entry,
  -- also where a later entry has all the strings of the dependency and no others: the series that
  -- was read stays in the value that is compared.
  pub match_dependencies_page_stale :
      (dep : Dependency) (curl_buf : Option CStr) (val : Value) (obj : Object) (arr : Array)
      (entry : Object) (series : CStr)
      → parse_string curl_buf ≡ some val
      → get_obj_from_rsp json val ≡ some obj
      → get_array_of obj (codes "data") ≡ some arr
      → get_object arr 0 ≡ some entry
      → get_string entry (codes "series") ≡ some series
      → dep.series ≡ none
      → IsUnmatched (match_dependencies_page json dep curl_buf)
  unfolding match_dependencies_page dependencies_value dependencies_page dependencies_in
  match_dependencies_page_stale dep curl_buf val obj arr entry series p o d e s h =
      rw (p, o, d) (first_stale dep (get_count arr) arr obj entry series e s h)
