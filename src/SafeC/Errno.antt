-- ===== src/SafeC/Errno.antt =====
-- Error numbers and limits of safe_c_stub/include (safe_lib_errno.h, safe_str_lib.h), and the
-- string and buffer types that the functions work on.
use libamvp.Common.{ℕ, suc, ◌-◌, ◌/◌, ◌^◌, List, [], ◌∷◌, ◌<◌, All}

pub data Errno : Type 0 where
  eok esnullp eszerol eslemin eslemax esovrlp esempty esnospc esunterm esnodiff esnotfnd : Errno
  einval : Errno

-- SIZE_MAX / 2 where size_t has 64 bits.
abbrev pub rsize_max_str : ℕ
rsize_max_str = (2 ^ 64 - 1) / 2

-- The bytes of a C string before its terminator.
abbrev pub CStr : Type 0
CStr = List ℕ

-- No byte of a C string is the terminator.
abbrev pub NoNul : CStr → Type 0
NoNul = All (λ c. 0 < c)

-- The bytes of an allocated object.
abbrev pub Buf : Type 0
Buf = List ℕ

-- The C string that starts an object: the bytes up to the first terminator.
abbrev pub until_nul : Buf → CStr
until_nul [] = []
until_nul (ℕ.zero ∷ b) = []
until_nul (suc c ∷ b) = suc c ∷ until_nul b
