-- ===== src/Alg/RoundTrip.antt =====
-- The searches by name return to the entry; the limits on names and modes; the sub-types.
use libamvp.Common.{
  ℕ, ◌≤◌, ◌≡◌, refl, Bool, true, false, not, Option, none, some, leb, ◌==◌, ==_iff, if◌then◌else◌,
  get_elem?, length, arith,
}
use libamvp.SafeC.Errno.{CStr}
use libamvp.SafeC.Compare.{strcmp}
use libamvp.Alg.Cipher.{
  Cipher, cipher_value, aes_kw, aes_kwp, aes_gmac, aes_xpn, kas_ffc_nocomp, kas_ffc_ssc,
  kda_onestep, kda_twostep, kda_hkdf, kts_ifc,
}
use libamvp.Alg.SubValue.{sub_value}
use libamvp.Alg.Entry.{AlgHandler}
use libamvp.Alg.Table.{alg_tbl}
use libamvp.Alg.Lookup.{alg_name_max, alg_mode_max, lookup_cipher_index, lookup_cipher_w_mode_index}
use libamvp.Alg.Entries.{every, every-at}

-- The search by the name, and the mode where there is one.
abbrev pub index_by_name : CStr → Option CStr → ℕ
index_by_name name none = lookup_cipher_index (some name)
index_by_name name (some m) = lookup_cipher_w_mode_index (some name) (some m)

abbrev is_found : AlgHandler → Bool
is_found e = index_by_name e.name e.mode == cipher_value e.cipher

alg_tbl-found : every is_found alg_tbl ≡ true
unfolding every lookup_cipher_index lookup_cipher_w_mode_index cipher_value alg_tbl strcmp
alg_tbl-found = refl

-- From the name of any entry of the table, and its mode where it has one, the search by name
-- (amvp_lookup_cipher_w_mode_index for a mode, amvp_lookup_cipher_index for none) returns to the
-- entry's cipher.
pub index_by_name-returns :
    (i : ℕ) (e : AlgHandler)
    → get_elem? alg_tbl i ≡ some e
    → index_by_name e.name e.mode ≡ cipher_value e.cipher
index_by_name-returns i e g =
    (==_iff (index_by_name e.name e.mode) (cipher_value e.cipher)).0
      (every-at is_found alg_tbl i e alg_tbl-found g)

abbrev mode_fits : Option CStr → Bool
mode_fits none = true
mode_fits (some m) = leb (length m) alg_mode_max

abbrev fits : AlgHandler → Bool
fits e = if leb (length e.name) alg_name_max then mode_fits e.mode else false

alg_tbl-fits : every fits alg_tbl ≡ true
unfolding every alg_tbl
alg_tbl-fits = refl

abbrev ModeFits : Option CStr → Type 0
ModeFits none = Unit
ModeFits (some m) = length m ≤ alg_mode_max

fits-both :
    (n : ℕ) (mode : Option CStr)
    → (if leb n alg_name_max then mode_fits mode else false) ≡ true
    → (n ≤ alg_name_max) × ModeFits mode
fits-both n none h = ground (arith, h)
fits-both n (some m) h = ground (arith, h)

-- No name of the table is longer than AMVP_ALG_NAME_MAX and no mode is longer than
-- AMVP_ALG_MODE_MAX.
pub names_fit :
    (i : ℕ) (e : AlgHandler)
    → get_elem? alg_tbl i ≡ some e
    → (length e.name ≤ alg_name_max) × ModeFits e.mode
names_fit i e g = fits-both (length e.name) e.mode (every-at fits alg_tbl i e alg_tbl-fits g)

-- The ciphers whose place among their sub-types is another one than among the ciphers.
abbrev pub is_misplaced : Cipher → Bool
is_misplaced aes_kw = true
is_misplaced aes_kwp = true
is_misplaced aes_gmac = true
is_misplaced aes_xpn = true
is_misplaced kas_ffc_nocomp = true
is_misplaced kas_ffc_ssc = true
is_misplaced kda_onestep = true
is_misplaced kda_twostep = true
is_misplaced kda_hkdf = true
is_misplaced kts_ifc = true
is_misplaced _ = false

abbrev agrees : AlgHandler → Bool
agrees e =
    if is_misplaced e.cipher
    then not (sub_value e.alg == cipher_value e.cipher)
    else (sub_value e.alg == cipher_value e.cipher)

alg_tbl-agrees : every agrees alg_tbl ≡ true
unfolding every cipher_value sub_value alg_tbl
alg_tbl-agrees = refl

-- In an entry of the table, the sub-type has the value of the cipher unless the cipher is one of
-- the ten misplaced ones, and then it has not: those enumerations do not keep the same values.
pub sub_values_agree :
    (i : ℕ) (e : AlgHandler)
    → get_elem? alg_tbl i ≡ some e
    → (sub_value e.alg == cipher_value e.cipher) ≡ not (is_misplaced e.cipher)
sub_values_agree i e g = let a = every-at agrees alg_tbl i e alg_tbl-agrees g in ground (arith, a)
