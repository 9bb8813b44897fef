-- ===== src/Util/Hex.antt =====
-- amvp_bin_to_hexstr, amvp_hexstr_to_bin and amvp_char_to_int of src/amvp_util.c. The int lengths
-- are not negative; `none` is a write outside the destination.
use libamvp.Common.{
  ℕ, ◌+◌, ◌-◌, ◌*◌, ◌/◌, ◌%◌, ◌&&◌, Option, none, some, List, [], ◌∷◌, ◌++◌, ltb, leb, ◌==◌,
  if◌then◌else◌, length,
}
use libamvp.Result.{Result, success, convert_data_err, invalid_arg, data_too_large, unsupported_op}
use libamvp.SafeC.Errno.{CStr, Buf}
use libamvp.SafeC.Compare.{strnlen_s}
use libamvp.SafeC.Copy.{overwrite}

abbrev pub hexstr_max : ℕ
hexstr_max = 1048576 / 4

-- An element of "0123456789ABCDEF".
unfoldable pub hex_char : ℕ → ℕ
hex_char n = if ltb n 10 then b'0' + n else b'A' + (n - 10)

unfoldable pub hex_chars : List ℕ → CStr
unfolding hex_char
hex_chars [] = []
hex_chars (c ∷ src) = hex_char (c / 16) ∷ hex_char (c % 16) ∷ hex_chars src

abbrev pub filled : Option Buf → Option (Result × Option Buf)
filled none = none
filled (some b) = some (success, some b)

unfoldable pub bin_to_hexstr : Option (List ℕ) → Option Buf → ℕ → Option (Result × Option Buf)
unfolding hex_chars overwrite
bin_to_hexstr none dest dest_max = some (convert_data_err, dest)
bin_to_hexstr (some src) none dest_max = some (convert_data_err, none)
bin_to_hexstr (some src) (some dest) dest_max =
    if ltb dest_max (length src * 2)
    then some (convert_data_err, some dest)
    else filled (overwrite dest (hex_chars src ++ (0 ∷ [])))

unfoldable pub char_to_int : ℕ → ℕ
char_to_int ch =
    if leb b'0' ch && leb ch b'9'
    then ch - b'0'
    else (if leb b'A' ch && leb ch b'F'
        then ch - b'A' + 10
        else (if leb b'a' ch && leb ch b'f' then ch - b'a' + 10 else 0))

-- The bytes of the loop, which runs to the end of the string.
unfoldable pub bytes_of : CStr → List ℕ
unfolding char_to_int
bytes_of [] = []
bytes_of (a ∷ []) = []
bytes_of (a ∷ b ∷ src) = (char_to_int a * 16 + char_to_int b) % 256 ∷ bytes_of src

-- The result, the destination and the length converted.
abbrev pub Converted : Type 0
Converted = Option (Result × Option Buf × Option ℕ)

abbrev pub converted : List ℕ → Option Buf → Converted
converted bytes none = none
converted bytes (some b) = some (success, some b, some (length bytes))

unfoldable pub hexstr_to_bin : Option CStr → Option Buf → ℕ → Converted
unfolding bytes_of overwrite
hexstr_to_bin none dest dest_max = some (invalid_arg, dest, none)
hexstr_to_bin (some src) none dest_max = some (invalid_arg, none, none)
hexstr_to_bin (some src) (some dest) dest_max =
    let src_len = strnlen_s (some src) hexstr_max in
    if ltb (2 * dest_max) src_len
    then some (data_too_large, some dest, none)
    else (if src_len % 2 == 1
        then some (unsupported_op, some dest, none)
        else converted (bytes_of src) (overwrite dest (bytes_of src)))
