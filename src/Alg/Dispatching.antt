-- ===== src/Alg/Dispatching.antt =====
-- Which entry of the table amvp_dispatch_vector_set takes.
use Prim.Native.Nat.{Ordering}
use libamvp.Common.{
  ◌≡◌, refl, ap, ◌∙◌, true, Option, none, some, List, [], ◌∷◌, ◌++◌, All, arith, ◌↔◌, if-split,
}
use libamvp.Result.{Result, json_err}
use libamvp.SafeC.Errno.{CStr}
use libamvp.SafeC.Compare.{strcmp, strcmp_s}
use libamvp.SafeC.Comparisons.{strcmp_iff}
use libamvp.Util.StringList.{is_equal}
use libamvp.Alg.Entry.{AlgHandler}
use libamvp.Alg.Table.{alg_tbl}
use libamvp.Alg.Lookup.{name_diff, mode_diff}
use libamvp.Alg.Dispatch.{
  VectorSet, after_mode, after_name, dispatch_loop, call_handler, dispatch_on, dispatch_vector_set,
}

-- The mode is not asked for, or is the entry's own.
abbrev pub ModeMatches : Option CStr → Option CStr → Type 0
ModeMatches m none = Unit
ModeMatches m (some wanted) = m ≡ some wanted

abbrev pub Matches : CStr → Option CStr → AlgHandler → Type 0
Matches alg mode e = (e.name ≡ alg) × ModeMatches e.mode mode

-- The first entry that matches, with all the others before it; or no entry matches.
abbrev pub First : CStr → Option CStr → List AlgHandler → Option AlgHandler → Type 0
First alg mode tbl none = All (λ e. ¬ Matches alg mode e) tbl
First alg mode tbl (some e) =
    (before : List AlgHandler) × (after : List AlgHandler) × (tbl ≡ before ++ (e ∷ after))
    × All (λ x. ¬ Matches alg mode x) before
    × Matches alg mode e

pub is_equal-strcmp : (s t : CStr) → (is_equal (strcmp s t) ≡ true) ↔ (s ≡ t)
is_equal-strcmp s t =
    let (to, from) = strcmp_iff s t in
    let b : (d : Ordering) → (is_equal d ≡ true) ↔ (d ≡ Ordering.eq) = λ d. ground (arith) in
    (λ h. to ((b (strcmp s t)).0 h), λ h. (b (strcmp s t)).1 (from h))

-- What the comparison of a name or of a mode decides; the old `diff` is always replaced.
name_diff_iff :
    (e : AlgHandler) (alg : CStr) (d : Ordering)
    → (is_equal (name_diff e alg d) ≡ true) ↔ (e.name ≡ alg)
unfolding strcmp_s
name_diff_iff e alg d = is_equal-strcmp e.name alg

mode_diff_iff :
    (m wanted : CStr) (d : Ordering) → (is_equal (mode_diff m wanted d) ≡ true) ↔ (m ≡ wanted)
unfolding strcmp_s
mode_diff_iff m wanted d = is_equal-strcmp m wanted

First-later :
    (alg : CStr) (mode : Option CStr) (e : AlgHandler) (tbl : List AlgHandler)
    (o : Option AlgHandler)
    → ¬ Matches alg mode e
    → First alg mode tbl o
    → First alg mode (e ∷ tbl) o
First-later alg mode e tbl none n f = (n, f)
First-later alg mode e tbl (some x) n (before, after, split, others, m) =
    (e ∷ before, after, ap (λ l. e ∷ l) split, (n, others), m)

after_mode-First :
    (e : AlgHandler) (tbl : List AlgHandler) (m : Option CStr) (alg wanted : CStr) (d : Ordering)
    (more : Ordering → Option AlgHandler)
    → e.mode ≡ m
    → e.name ≡ alg
    → ((d : Ordering) → First alg (some wanted) tbl (more d))
    → First alg (some wanted) (e ∷ tbl) (after_mode e m wanted d more)
unfolding after_mode
after_mode-First e tbl none alg wanted d more em n ih =
    First-later alg (some wanted) e tbl (more d) (λ p. ground (arith, p, em)) (ih d)
after_mode-First e tbl (some m) alg wanted d more em n ih =
    let d' = mode_diff m wanted d in
    let (to, from) = mode_diff_iff m wanted d in
    if-split (First alg (some wanted) (e ∷ tbl)) (is_equal d')
      (λ h. ([], tbl, refl, tt, (n, em ∙ ap some (to h))))
      (λ h.
        First-later alg (some wanted) e tbl (more d') (λ p. ground (arith, p, em, from, h)) (ih d'))

after_name-First :
    (e : AlgHandler) (tbl : List AlgHandler) (alg : CStr) (mode : Option CStr) (d : Ordering)
    (more : Ordering → Option AlgHandler)
    → e.name ≡ alg
    → ((d : Ordering) → First alg mode tbl (more d))
    → First alg mode (e ∷ tbl) (after_name e mode d more)
unfolding after_name
after_name-First e tbl alg none d more n ih = ([], tbl, refl, tt, (n, tt))
after_name-First e tbl alg (some wanted) d more n ih =
    after_mode-First e tbl e.mode alg wanted d more refl n ih

dispatch_loop-First :
    (tbl : List AlgHandler) (alg : CStr) (mode : Option CStr) (d : Ordering)
    → First alg mode tbl (dispatch_loop tbl alg mode d)
unfolding dispatch_loop
dispatch_loop-First [] alg mode d = tt
dispatch_loop-First (e ∷ tbl) alg mode d =
    let d' = name_diff e alg d in
    let (to, from) = name_diff_iff e alg d in
    let ih = dispatch_loop-First tbl alg mode in
    if-split (First alg mode (e ∷ tbl)) (is_equal d')
      (λ h. after_name-First e tbl alg mode d' (dispatch_loop tbl alg mode) (to h) ih)
      (λ h.
        First-later alg mode e tbl (dispatch_loop tbl alg mode d')
          (λ p. ground (arith, from p.0, h)) (ih d'))

module _ {W Object : Type 0} (c : VectorSet W Object) where
  -- What a vector set leads to: without a name an error; with one, the handler of the first entry
  -- of the table that matches, or an error where none does.
  abbrev pub Dispatched : Object → W → Option CStr → Result × W → Type 0
  Dispatched obj w none out = out ≡ (json_err, w)
  Dispatched obj w (some alg) out =
      (o : Option AlgHandler) × First alg (c.mode obj) alg_tbl o × (out ≡ call_handler c o obj w)

  dispatch_on-Dispatched :
      (obj : Object) (w : W) (alg : Option CStr) → Dispatched obj w alg (dispatch_on c alg obj w)
  unfolding dispatch_on
  dispatch_on-Dispatched obj w none = refl
  dispatch_on-Dispatched obj w (some alg) =
      let o = dispatch_loop alg_tbl alg (c.mode obj) Ordering.gt in
      (o, dispatch_loop-First alg_tbl alg (c.mode obj) Ordering.gt, refl)

  -- amvp_dispatch_vector_set records the identifier of the vector set in every case. A set without
  -- an algorithm is refused with AMVP_JSON_ERR; otherwise the handler is called of the first entry
  -- of the table with this algorithm as its name and, where the set has a mode, this mode, and if
  -- there is no such entry, no handler is called and AMVP_UNSUPPORTED_OP is returned.
  pub dispatch_vector_set_decides :
      (obj : Object) (w : W)
      → Dispatched obj (c.set_vs_id (c.vs_id obj) w) (c.algorithm obj) (dispatch_vector_set c obj w)
  unfolding dispatch_vector_set
  dispatch_vector_set_decides obj w =
      dispatch_on-Dispatched obj (c.set_vs_id (c.vs_id obj) w) (c.algorithm obj)
