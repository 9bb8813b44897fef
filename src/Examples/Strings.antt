-- ===== src/Examples/Strings.antt =====
-- Runs of the string and buffer functions (safe_c_stub/src) and of the helpers of src/amvp_util.c.
use libamvp.Common.{
  Any, ◌*◌, ◌≡◌, ◌↔◌, true, none, some, [], ◌∷◌, ◌++◌, map, arith, length, take, drop, codes,
}
use libamvp.Result.{success}
use libamvp.SafeC.Errno.{eok, CStr, Buf, until_nul}
use libamvp.SafeC.Copy.{strcpy_s, strncpy_s, memzero_s, memset_s, memcpy_s, memmove_s}
use libamvp.SafeC.Copying.{IsWithin, strcpy_s_copies}
use libamvp.SafeC.Bounds.{StaysWithin, strncpy_s_bounds, strncpy_s_copies}
use libamvp.SafeC.MemoryBounds.{memory_bounds}
use libamvp.Util.Hex.{bin_to_hexstr, hexstr_to_bin}
use libamvp.Util.HexRoundTrip.{hexstr_to_bin-bin_to_hexstr}
use libamvp.Util.StringList.{lookup_str_list}
use libamvp.Util.Lookup.{Agrees, lookup_str_list_decides}

abbrev aes : CStr
aes = codes "AES"

abbrev aes_gcm : CStr
aes_gcm = codes "AES-GCM"

abbrev five : Buf
five = 9 ∷ 8 ∷ 7 ∷ 6 ∷ 5 ∷ []

strcpy_s_copies_example :
    (b : Buf) × (strcpy_s (some five) 4 (some aes) ≡ some (eok, some b))
    × (until_nul b ≡ aes)
    × IsWithin 4 five b
strcpy_s_copies_example = strcpy_s_copies five aes 4 (ground arith) (omega arith) (omega arith)

strncpy_s_bounds_example : StaysWithin 3 five (strncpy_s (some five) 3 (some aes_gcm) 7 (some 2))
strncpy_s_bounds_example =
    strncpy_s_bounds five 3 (some aes_gcm) 7 (some 2) (omega arith) (omega arith)

strncpy_s_copies_example :
    (b : Buf) × (strncpy_s (some five) 5 (some aes_gcm) 4 none ≡ some (eok, some b))
    × (until_nul b ≡ take 4 aes_gcm)
    × (length b ≡ length five)
strncpy_s_copies_example =
    strncpy_s_copies five 5 aes_gcm 4 (ground arith) (omega arith) (omega arith) (omega arith)
      (omega arith)

memory_bounds_example :
    StaysWithin 4 five (memzero_s (some five) 4)
    × StaysWithin 4 five (memset_s (some five) 4 300 3)
    × StaysWithin 4 five (memcpy_s (some five) 4 (some aes) 3)
    × StaysWithin 4 five (memmove_s (some five) 4 (some aes) 3)
memory_bounds_example = memory_bounds five aes 4 3 300 (omega arith) (λ h. omega arith)

hexstr_to_bin-bin_to_hexstr_example :
    (text : Buf) × (bin_to_hexstr (some (171 ∷ 5 ∷ [])) (some five) (2 * 2)
      ≡ some (success, some text))
    × (hexstr_to_bin (some (until_nul text)) (some five) 3
        ≡ some (success, some ((171 ∷ 5 ∷ []) ++ drop 2 five), some 2))
hexstr_to_bin-bin_to_hexstr_example =
    hexstr_to_bin-bin_to_hexstr (171 ∷ 5 ∷ []) five five 3 (ground arith) (omega arith)
      (omega arith) (omega arith) (omega arith)

lookup_str_list_decides_example :
    (lookup_str_list (some (map some (aes ∷ []))) (some aes_gcm) ≡ true)
    ↔ Any (Agrees aes_gcm) (aes ∷ [])
lookup_str_list_decides_example = lookup_str_list_decides (aes ∷ []) aes_gcm
