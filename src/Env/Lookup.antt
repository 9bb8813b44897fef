-- ===== src/Env/Lookup.antt =====
-- The dependency table as a map from ids to entries.
use libamvp.Common.{
  ℕ, suc, ◌+◌, ◌-◌, ◌≤◌, ◌≡◌, refl, sym, inl, inr, false, Option, none, some, List, [], ◌∷◌, ◌++◌,
  ◌==◌, if◌then◌else◌, get_elem?, modify, arith, Bool-cases, is_some,
}
use libamvp.Env.Tables.{find_from, has_id}

abbrev pub map_option : {A B : Type 0} → (A → B) → Option A → Option B
map_option f none = none
map_option f (some a) = some (f a)

module _ {A : Type 0} (id_of : A → ℕ) where
  -- The first entry with the id.
  unfoldable pub entry_of : ℕ → List A → Option A
  entry_of id [] = none
  entry_of id (x ∷ xs) = if id == id_of x then some x else entry_of id xs

  find_from_le : (id k j : ℕ) (xs : List A) → find_from id_of id k xs ≡ some j → k ≤ j
  unfolding find_from
  find_from_le id k j [] h = cc
  find_from_le id k j (x ∷ xs) h = ground (arith, find_from_le id (k + 1) j xs)

  -- The head of a list that starts at the index `k`, and what follows it.
  head_index : (k : ℕ) → k - k ≡ 0
  head_index k = omega arith

  tail_index : (k j : ℕ) → k + 1 ≤ j → j - k ≡ suc (j - (k + 1))
  tail_index k j h = omega arith

  -- No index is found exactly where no entry has the id.
  pub find_from-entry_of :
      (id k : ℕ) (xs : List A) → is_some (find_from id_of id k xs) ≡ is_some (entry_of id xs)
  unfolding find_from entry_of
  find_from-entry_of id k [] = refl
  find_from-entry_of id k (x ∷ xs) = ground (arith, find_from-entry_of id (k + 1) xs)

  pub get_elem?-find_from :
      (id k j : ℕ) (xs : List A)
      → find_from id_of id k xs ≡ some j
      → get_elem? xs (j - k) ≡ entry_of id xs
  unfolding find_from entry_of
  get_elem?-find_from id k j [] h = cc
  get_elem?-find_from id k j (x ∷ xs) h = elim (Bool-cases (id == id_of x)) [
    | inl same ↦ let here : k ≡ j = ground arith in rw (same, sym here, head_index k) refl
    | inr other ↦
        let later : find_from id_of id (k + 1) xs ≡ some j = ground arith in
        rw (other, tail_index k j (find_from_le id (k + 1) j xs later))
          (get_elem?-find_from id (k + 1) j xs later)
  ]

  pub entry_of-append :
      (id : ℕ) (xs : List A) (y : A)
      → has_id id_of (id_of y) xs ≡ false
      → entry_of id (xs ++ (y ∷ [])) ≡ (if id == id_of y then some y else entry_of id xs)
  unfolding entry_of has_id
  entry_of-append id [] y h = refl
  entry_of-append id (x ∷ xs) y h = ground (arith, entry_of-append id xs y)

  pub entry_of-modify :
      (i id k j : ℕ) (xs : List A) (f : A → A)
      → ((y : A) → id_of (f y) ≡ id_of y)
      → find_from id_of id k xs ≡ some j
      → entry_of i (modify xs (j - k) f)
        ≡ (if i == id then map_option f (entry_of i xs) else entry_of i xs)
  unfolding entry_of find_from
  entry_of-modify i id k j [] f keeps h = cc
  entry_of-modify i id k j (x ∷ xs) f keeps h = elim (Bool-cases (id == id_of x)) [
    | inl same ↦
        let here : k ≡ j = ground arith in rw (sym here, head_index k) (ground (arith, keeps x))
    | inr other ↦
        let later : find_from id_of id (k + 1) xs ≡ some j = ground arith in
        rw (tail_index k j (find_from_le id (k + 1) j xs later))
          (ground (arith, entry_of-modify i id (k + 1) j xs f keeps later))
  ]
