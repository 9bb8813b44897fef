-- ===== src/Env/Valid.antt =====
-- The invariant of the tables: their capacities, unique ids that are not 0, and links that lead to
-- entries.
use libamvp.Common.{
  ℕ, zero, suc, ◌≤◌, ◌<◌, ◌≡◌, ◌≢◌, refl, false, ◌||◌, Option, none, some, List, [], ◌∷◌, ◌++◌,
  ◌==◌, length, arith, All, length-append, length-modify, modify,
}
use libamvp.Env.Types.{
  Env, Vendor, Module, Dependency, Oe, vendors_max, modules_max, dependencies_max, oes_max,
  empty_env,
}
use libamvp.Env.Tables.{has_id}

module _ {A : Type 0} where
  -- No two entries have the same id.
  abbrev pub Distinct : (A → ℕ) → List A → Type 0
  Distinct id_of [] = Unit
  Distinct id_of (x ∷ xs) = (has_id id_of (id_of x) xs ≡ false) × Distinct id_of xs

  pub record IsTable (id_of : A → ℕ) (max : ℕ) (xs : List A) : Type 0 where
    pub fits : length xs ≤ max
    pub distinct : Distinct id_of xs
    pub nonzero : All (λ x. 0 < id_of x) xs

  pub All-append : (P : A → Type 0) (xs : List A) (y : A) → All P xs → P y → All P (xs ++ (y ∷ []))
  All-append P [] y h k = (k, tt)
  All-append P (x ∷ xs) y h k = (h.0, All-append P xs y h.1 k)

  pub All-modify :
      (P : A → Type 0) (xs : List A) (n : ℕ) (f : A → A)
      → ((x : A) → P x → P (f x))
      → All P xs
      → All P (modify xs n f)
  All-modify P [] n f k h = h
  All-modify P (x ∷ xs) zero f k h = (k x h.0, h.1)
  All-modify P (x ∷ xs) (suc n) f k h = (h.0, All-modify P xs n f k h.1)

  pub All-map : (P Q : A → Type 0) (xs : List A) → ((x : A) → P x → Q x) → All P xs → All Q xs
  All-map P Q [] k h = h
  All-map P Q (x ∷ xs) k h = (k x h.0, All-map P Q xs k h.1)

  has_id-append :
      (id_of : A → ℕ) (id : ℕ) (xs : List A) (y : A)
      → has_id id_of id (xs ++ (y ∷ [])) ≡ (has_id id_of id xs || id == id_of y)
  unfolding has_id
  has_id-append id_of id [] y = ground arith
  has_id-append id_of id (x ∷ xs) y = ground (arith, has_id-append id_of id xs y)

  Distinct-append :
      (id_of : A → ℕ) (xs : List A) (y : A)
      → Distinct id_of xs
      → has_id id_of (id_of y) xs ≡ false
      → Distinct id_of (xs ++ (y ∷ []))
  unfolding has_id
  Distinct-append id_of [] y d h = (refl, tt)
  Distinct-append id_of (x ∷ xs) y d h = (
    ground (arith, has_id-append id_of (id_of x) xs y, d.0),
    Distinct-append id_of xs y d.1 (ground arith),
  )

  -- A new entry in a table that is not full.
  pub append-IsTable :
      (id_of : A → ℕ) (max : ℕ) (xs : List A) (y : A)
      → IsTable id_of max xs
      → length xs ≢ max
      → 0 < id_of y
      → has_id id_of (id_of y) xs ≡ false
      → IsTable id_of max (xs ++ (y ∷ []))
  append-IsTable id_of max xs y t room pos fresh = record {
    fits = omega (arith, t.fits, room, length-append xs (y ∷ []));
    distinct = Distinct-append id_of xs y t.distinct fresh;
    nonzero = All-append (λ x. 0 < id_of x) xs y t.nonzero pos;
  }

  has_id-modify :
      (id_of : A → ℕ) (id : ℕ) (xs : List A) (n : ℕ) (f : A → A)
      → ((x : A) → id_of (f x) ≡ id_of x)
      → has_id id_of id (modify xs n f) ≡ has_id id_of id xs
  unfolding has_id
  has_id-modify id_of id [] n f k = refl
  has_id-modify id_of id (x ∷ xs) zero f k = rw (k x) refl
  has_id-modify id_of id (x ∷ xs) (suc n) f k = rw (has_id-modify id_of id xs n f k) refl

  Distinct-modify :
      (id_of : A → ℕ) (xs : List A) (n : ℕ) (f : A → A)
      → ((x : A) → id_of (f x) ≡ id_of x)
      → Distinct id_of xs
      → Distinct id_of (modify xs n f)
  Distinct-modify id_of [] n f k d = d
  Distinct-modify id_of (x ∷ xs) zero f k d = (rw (k x) d.0, d.1)
  Distinct-modify id_of (x ∷ xs) (suc n) f k d =
      (rw (has_id-modify id_of (id_of x) xs n f k) d.0, Distinct-modify id_of xs n f k d.1)

  -- A changed entry that keeps its id.
  pub modify-IsTable :
      (id_of : A → ℕ) (max : ℕ) (xs : List A) (n : ℕ) (f : A → A)
      → ((x : A) → id_of (f x) ≡ id_of x)
      → IsTable id_of max xs
      → IsTable id_of max (modify xs n f)
  modify-IsTable id_of max xs n f k t = record {
    fits = rw (length-modify xs n f) t.fits;
    distinct = Distinct-modify id_of xs n f k t.distinct;
    nonzero = All-modify (λ x. 0 < id_of x) xs n f (λ x h. rw (k x) h) t.nonzero;
  }

-- An environment's links lead into a table of `n` dependencies.
abbrev pub IsLinked : ℕ → Oe → Type 0
IsLinked n o = All (λ d. d < n) o.deps × (length o.deps ≤ dependencies_max)

-- A module's vendor is one of `n`.
abbrev pub IsVendored : ℕ → Option ℕ → Type 0
IsVendored n none = Unit
IsVendored n (some v) = v < n

pub record IsValid (env : Env) : Type 0 where
  pub vendors : IsTable (λ (v : Vendor). v.id) vendors_max env.vendors
  pub modules : IsTable (λ (m : Module). m.id) modules_max env.modules
  pub dependencies : IsTable (λ (d : Dependency). d.id) dependencies_max env.dependencies
  pub oes : IsTable (λ (o : Oe). o.id) oes_max env.oes
  pub linked : All (IsLinked (length env.dependencies)) env.oes
  pub vendored : All (λ (m : Module). IsVendored (length env.vendors) m.vendor) env.modules

pub empty_env-IsValid : IsValid empty_env
empty_env-IsValid = record {
  vendors = record { fits = omega arith; distinct = tt; nonzero = tt };
  modules = record { fits = omega arith; distinct = tt; nonzero = tt };
  dependencies = record { fits = omega arith; distinct = tt; nonzero = tt };
  oes = record { fits = omega arith; distinct = tt; nonzero = tt };
  linked = tt;
  vendored = tt;
}

pub IsLinked-le : (m n : ℕ) (o : Oe) → m ≤ n → IsLinked m o → IsLinked n o
IsLinked-le m n o h (links, few) =
    (All-map (λ d. d < m) (λ d. d < n) o.deps (λ d k. omega arith) links, few)

pub IsVendored-le : (m n : ℕ) (v : Option ℕ) → m ≤ n → IsVendored m v → IsVendored n v
IsVendored-le m n none h k = k
IsVendored-le m n (some v) h k = omega arith
