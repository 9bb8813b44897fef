-- ===== src/Util/HexRoundTrip.antt =====
-- Bytes to hexadecimal text and back.
use libamvp.Common.{
  ℕ, zero, suc, ◌+◌, ◌*◌, ◌/◌, ◌%◌, ◌≤◌, ◌<◌, ◌≡◌, refl, ap, some, List, [], ◌∷◌, ◌++◌, arith,
  length, All, length-append, drop,
}
use libamvp.Result.{success}
use libamvp.SafeC.Errno.{CStr, Buf, until_nul, NoNul}
use libamvp.SafeC.Compare.{strnlen, strnlen_s}
use libamvp.SafeC.Copy.{overwrite}
use libamvp.SafeC.Copying.{strnlen-eq-min, overwrite_fits}
use libamvp.Util.Hex.{
  hex_char, hex_chars, bin_to_hexstr, char_to_int, bytes_of, hexstr_to_bin, hexstr_max,
}

-- The values of bytes.
abbrev pub IsBytes : List ℕ → Type 0
IsBytes = All (λ c. c < 256)

char_to_int-hex_char : (n : ℕ) → n < 16 → char_to_int (hex_char n) ≡ n
unfolding char_to_int hex_char
char_to_int-hex_char n h = ground arith

hex_char_pos : (n : ℕ) → n < 16 → 0 < hex_char n
unfolding hex_char
hex_char_pos n h = ground arith

bytes_of-hex_chars : (src : List ℕ) → IsBytes src → bytes_of (hex_chars src) ≡ src
unfolding bytes_of hex_chars
bytes_of-hex_chars [] h = refl
bytes_of-hex_chars (c ∷ src) h =
    rw
      (
        char_to_int-hex_char (c / 16) (omega (arith, h.0)),
        char_to_int-hex_char (c % 16) (omega arith),
        bytes_of-hex_chars src h.1,
      )
      (ap (λ d. d ∷ src) byte)
  where
    byte : (c / 16 * 16 + c % 16) % 256 ≡ c
    byte = omega (arith, h.0)

length-hex_chars : (src : List ℕ) → length (hex_chars src) ≡ 2 * length src
unfolding hex_chars
length-hex_chars [] = omega arith
length-hex_chars (c ∷ src) = omega (arith, length-hex_chars src)

until_nul-append : (s : CStr) (rest : Buf) → NoNul s → until_nul (s ++ (0 ∷ rest)) ≡ s
until_nul-append [] rest h = refl
until_nul-append (zero ∷ s) rest h = absurd (omega (arith, h.0))
until_nul-append (suc c ∷ s) rest h = ap (λ t. suc c ∷ t) (until_nul-append s rest h.1)

hex_chars-NoNul : (src : List ℕ) → IsBytes src → NoNul (hex_chars src)
unfolding hex_chars
hex_chars-NoNul [] h = tt
hex_chars-NoNul (c ∷ src) h =
    let rest = hex_chars-NoNul src h.1 in
    (hex_char_pos (c / 16) (omega (arith, h.0)), (hex_char_pos (c % 16) (omega arith), rest))

overwrite_whole : (b xs : List ℕ) → length b ≡ length xs → overwrite b xs ≡ some xs
unfolding overwrite
overwrite_whole [] [] h = refl
overwrite_whole (d ∷ b) [] h = absurd (omega arith)
overwrite_whole [] (x ∷ xs) h = absurd (omega arith)
overwrite_whole (d ∷ b) (x ∷ xs) h = rw (overwrite_whole b xs (omega arith)) refl

bin_to_hexstr_text :
    (src : List ℕ) (dest : Buf)
    → length dest ≡ 2 * length src + 1
    → bin_to_hexstr (some src) (some dest) (2 * length src)
      ≡ some (success, some (hex_chars src ++ (0 ∷ [])))
unfolding bin_to_hexstr
bin_to_hexstr_text src dest h =
    let room =
      overwrite_whole dest (hex_chars src ++ (0 ∷ []))
        (omega (arith, length-append (hex_chars src) (0 ∷ []), length-hex_chars src)) in
    ground (arith, room)

hexstr_to_bin_bytes :
    (src : List ℕ) (dest : Buf) (dest_max : ℕ)
    → IsBytes src
    → 2 * length src ≤ hexstr_max
    → length src ≤ dest_max
    → dest_max ≤ length dest
    → hexstr_to_bin (some (hex_chars src)) (some dest) dest_max
      ≡ some (success, some (src ++ drop (length src) dest), some (length src))
unfolding hexstr_to_bin strnlen_s
hexstr_to_bin_bytes src dest dest_max h limit fits inside =
    let seen : strnlen (hex_chars src) hexstr_max ≡ 2 * length src =
      omega (arith, strnlen-eq-min (hex_chars src) hexstr_max, length-hex_chars src) in
    rw (seen, bytes_of-hex_chars src h, overwrite_fits dest src (omega arith)) (ground arith)

-- The two conversions of `n` bytes, with a destination of 2 n + 1 and one of at least n: both
-- succeed, and the second leaves the bytes at the start of its destination, which otherwise is as
-- it was, and reports their number. The text is not past the library's limit.
pub hexstr_to_bin-bin_to_hexstr :
    (src : List ℕ) (text_dest dest : Buf) (dest_max : ℕ)
    → IsBytes src
    → 2 * length src ≤ hexstr_max
    → length text_dest ≡ 2 * length src + 1
    → length src ≤ dest_max
    → dest_max ≤ length dest
    → (text : Buf) × (bin_to_hexstr (some src) (some text_dest) (2 * length src)
        ≡ some (success, some text))
      × (hexstr_to_bin (some (until_nul text)) (some dest) dest_max
          ≡ some (success, some (src ++ drop (length src) dest), some (length src)))
hexstr_to_bin-bin_to_hexstr src text_dest dest dest_max h limit room fits inside = (
  hex_chars src ++ (0 ∷ []),
  bin_to_hexstr_text src text_dest room,
  rw (until_nul-append (hex_chars src) [] (hex_chars-NoNul src h))
      (hexstr_to_bin_bytes src dest dest_max h limit fits inside),
)
