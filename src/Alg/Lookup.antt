-- ===== src/Alg/Lookup.antt =====
-- The searches in the algorithm table: amvp_lookup_cipher_name and the four that follow it in
-- src/amvp_util.c, and amvp_get_cmac_alg and its eleven copies of src/amvp.c, which differ in the
-- member of the union they read. A cipher is an `int` that may lie outside its enumeration.
use Prim.Native.Nat.{Ordering}
use libamvp.Common.{
  ℕ, ◌-◌, Bool, false, ◌||◌, Option, none, some, List, [], ◌∷◌, leb, ltb, ◌==◌, if◌then◌else◌,
  get_elem?,
}
use libamvp.SafeC.Errno.{CStr}
use libamvp.SafeC.Compare.{strnlen_s, strcmp_s}
use libamvp.Util.StringList.{is_equal}
use libamvp.Alg.Cipher.{cipher_end, cipher_value}
use libamvp.Alg.SubValue.{sub_value}
use libamvp.Alg.Entry.{AlgHandler}
use libamvp.Alg.Table.{alg_tbl}

abbrev pub alg_name_max : ℕ
alg_name_max = 18

abbrev pub alg_mode_max : ℕ
alg_mode_max = 26

-- The first entry that passes a test.
unfoldable pub find : (AlgHandler → Bool) → List AlgHandler → Option AlgHandler
find test [] = none
find test (e ∷ tbl) = let rest = find test tbl in if test e then some e else rest

abbrev pub has_cipher : ℕ → AlgHandler → Bool
has_cipher alg e = cipher_value e.cipher == alg

-- `diff` after the comparison with the name, or with the mode.
abbrev pub name_diff : AlgHandler → CStr → Ordering → Ordering
name_diff e algorithm diff = (strcmp_s (some e.name) alg_name_max (some algorithm) diff).1

abbrev pub mode_diff : CStr → CStr → Ordering → Ordering
mode_diff mode wanted diff = (strcmp_s (some mode) alg_mode_max (some wanted) diff).1

abbrev pub name_of : Option AlgHandler → Option CStr
name_of none = none
name_of (some e) = some e.name

abbrev pub revision_of : Option AlgHandler → Option CStr
revision_of none = none
revision_of (some e) = some e.revision

abbrev pub cipher_id : Option AlgHandler → ℕ
cipher_id none = 0
cipher_id (some e) = cipher_value e.cipher

unfoldable pub lookup_cipher_name : ℕ → Option CStr
unfolding find
lookup_cipher_name alg = name_of (find (has_cipher alg) alg_tbl)

unfoldable pub lookup_cipher_revision : ℕ → Option CStr
unfolding find
lookup_cipher_revision alg = revision_of (find (has_cipher alg) alg_tbl)

abbrev pub has_name : CStr → AlgHandler → Bool
has_name algorithm e = is_equal (name_diff e algorithm Ordering.gt)

unfoldable pub lookup_cipher_index : Option CStr → ℕ
unfolding find strcmp_s
lookup_cipher_index none = 0
lookup_cipher_index (some algorithm) = cipher_id (find (has_name algorithm) alg_tbl)

-- The mode is compared after the name; an entry without a mode is passed over.
unfoldable pub has_mode : CStr → CStr → AlgHandler → Option CStr → Bool
unfolding strcmp_s
has_mode algorithm mode e none = false
has_mode algorithm mode e (some m) =
    let diff = name_diff e algorithm Ordering.eq in
    if is_equal diff then is_equal (mode_diff m mode diff) else false

abbrev pub has_name_and_mode : CStr → CStr → AlgHandler → Bool
has_name_and_mode algorithm mode e = has_mode algorithm mode e e.mode

unfoldable pub lookup_cipher_w_mode_index : Option CStr → Option CStr → ℕ
unfolding find has_mode
lookup_cipher_w_mode_index none mode = 0
lookup_cipher_w_mode_index (some algorithm) none = 0
lookup_cipher_w_mode_index (some algorithm) (some mode) =
    cipher_id (find (has_name_and_mode algorithm mode) alg_tbl)

-- An empty mode counts as none.
abbrev pub mode_unless_empty : Option CStr → Option CStr
mode_unless_empty none = none
mode_unless_empty (some m) = if ltb (strnlen_s (some m) alg_mode_max) 1 then none else some m

abbrev pub mode_str_of : Option AlgHandler → Option CStr
mode_str_of none = none
mode_str_of (some e) = mode_unless_empty e.mode

unfoldable pub lookup_cipher_mode_str : ℕ → Option CStr
unfolding find strnlen_s
lookup_cipher_mode_str cipher = mode_str_of (find (has_cipher cipher) alg_tbl)

abbrev pub sub_of : Option AlgHandler → Option ℕ
sub_of none = none
sub_of (some e) = some (sub_value e.alg)

-- The value of the sub-type; `none` is a read past the table.
unfoldable pub get_alg : ℕ → Option ℕ
unfolding sub_value
get_alg cipher =
    if cipher == 0 || leb (cipher_value cipher_end) cipher
    then some 0
    else sub_of (get_elem? alg_tbl (cipher - 1))
