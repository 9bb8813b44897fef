-- ===== src/Alg/Entries.antt =====
-- The algorithm table keeps the order of the ciphers, and so every search finds the same entry.
use libamvp.Common.{
  ℕ, suc, zero, ◌+◌, ◌-◌, ◌<◌, ◌≡◌, refl, ap, ◌∙◌, Bool, true, false, some, List, [], ◌∷◌, ◌==◌,
  if◌then◌else◌, get_elem?, length, arith,
}
use libamvp.Alg.Cipher.{cipher_value, cipher_end}
use libamvp.Alg.SubValue.{sub_value}
use libamvp.Alg.Entry.{AlgHandler}
use libamvp.Alg.Table.{alg_tbl}
use libamvp.Alg.Naming.{cipher_of}
use libamvp.Alg.Lookup.{
  find, has_cipher, lookup_cipher_name, lookup_cipher_revision, mode_unless_empty,
  lookup_cipher_mode_str, get_alg,
}

-- A test at every element, to be computed.
unfoldable pub every : {A : Type 0} → (A → Bool) → List A → Bool
every test [] = true
every test (x ∷ xs) = let rest = every test xs in if test x then rest else false

pub every-at :
    {A : Type 0} (test : A → Bool) (xs : List A) (i : ℕ) (x : A)
    → every test xs ≡ true
    → get_elem? xs i ≡ some x
    → test x ≡ true
unfolding every
every-at test [] i x h e = cc
every-at test (y ∷ ys) zero x h e = ground (arith, h, e)
every-at test (y ∷ ys) (suc i) x h e =
    let r = λ (q : every test ys ≡ true). every-at test ys i x q e in ground (arith, h, r)

-- The entries have the numbers from `k` on as their ciphers.
unfoldable in_order : ℕ → List AlgHandler → Bool
in_order k [] = true
in_order k (e ∷ tbl) =
    let rest = in_order (suc k) tbl in if cipher_value e.cipher == k then rest else false

abbrev same_cipher : AlgHandler → Bool
same_cipher e = cipher_value (cipher_of e.alg) == cipher_value e.cipher

alg_tbl-in_order : in_order 1 alg_tbl ≡ true
unfolding in_order alg_tbl cipher_value
alg_tbl-in_order = refl

length-alg_tbl : length alg_tbl ≡ 101
unfolding alg_tbl
length-alg_tbl = refl

alg_tbl-named : every same_cipher alg_tbl ≡ true
unfolding every alg_tbl cipher_value cipher_of
alg_tbl-named = refl

get_elem-some :
    {A : Type 0} (xs : List A) (i : ℕ) → i < length xs → (x : A) × (get_elem? xs i ≡ some x)
get_elem-some [] i h = ground (arith, h)
get_elem-some (x ∷ xs) zero h = (x, refl)
get_elem-some (x ∷ xs) (suc i) h = get_elem-some xs i (omega (arith, h))

in_order-find :
    (tbl : List AlgHandler) (k i : ℕ)
    → in_order k tbl ≡ true
    → find (has_cipher (k + i)) tbl ≡ get_elem? tbl i
unfolding in_order find
in_order-find [] k i h = refl
in_order-find (e ∷ tbl) k zero h = ground (arith, h)
in_order-find (e ∷ tbl) k (suc i) h = let r = in_order-find tbl (suc k) i in ground (arith, h, r)

abbrev pub FoundAs : ℕ → AlgHandler → Type 0
FoundAs c e =
    (cipher_value e.cipher ≡ c)
    × (cipher_value (cipher_of e.alg) ≡ c)
    × (lookup_cipher_name c ≡ some e.name)
    × (lookup_cipher_revision c ≡ some e.revision)
    × (lookup_cipher_mode_str c ≡ mode_unless_empty e.mode)
    × (get_alg c ≡ some (sub_value e.alg))

in_order-cipher :
    (tbl : List AlgHandler) (k i : ℕ) (e : AlgHandler)
    → in_order k tbl ≡ true
    → get_elem? tbl i ≡ some e
    → cipher_value e.cipher ≡ k + i
unfolding in_order
in_order-cipher [] k i e h g = cc
in_order-cipher (x ∷ tbl) k zero e h g = ground (arith, h, g)
in_order-cipher (x ∷ tbl) k (suc i) e h g =
    let r = λ (q : in_order (suc k) tbl ≡ true). in_order-cipher tbl (suc k) i e q g in
    ground (arith, h, r)

find-at : (c : ℕ) → 0 < c → find (has_cipher c) alg_tbl ≡ get_elem? alg_tbl (c - 1)
find-at c p =
    let e : c ≡ 1 + (c - 1) = omega (arith, p) in
    ap (λ k. find (has_cipher k) alg_tbl) e ∙ in_order-find alg_tbl 1 (c - 1) alg_tbl-in_order

entry_found :
    (c : ℕ) (e : AlgHandler) → 0 < c → c < 102 → get_elem? alg_tbl (c - 1) ≡ some e → FoundAs c e
unfolding lookup_cipher_name lookup_cipher_revision lookup_cipher_mode_str get_alg cipher_value
entry_found c e p q g =
    let f = find-at c p ∙ g in
    let has = in_order-cipher alg_tbl 1 (c - 1) e alg_tbl-in_order g in
    let named = every-at same_cipher alg_tbl (c - 1) e alg_tbl-named g in
    (
      omega (arith, has, p),
      ground (arith, has, named, p),
      rw f refl,
      rw f refl,
      rw f refl,
      rw g (ground (arith, p, q)),
    )

-- Every cipher that lies strictly between AMVP_CIPHER_START and AMVP_CIPHER_END has the entry at
-- its own place of the table: the entry's cipher and the cipher that its sub-type is named after
-- are this one, and all searches by cipher give the fields of this entry.
pub table_is_aligned :
    (c : ℕ)
    → 0 < c
    → c < cipher_value cipher_end
    → (e : AlgHandler) × (get_elem? alg_tbl (c - 1) ≡ some e) × FoundAs c e
unfolding lookup_cipher_name lookup_cipher_revision lookup_cipher_mode_str get_alg cipher_value
table_is_aligned c p q =
    let (e, g) = get_elem-some alg_tbl (c - 1) (rw length-alg_tbl (omega (arith, p, q))) in
    (e, g, entry_found c e p q g)
