-- ===== src/SafeC/MemoryBounds.antt =====
-- The fills and copies of safe_mem_stub.c: bounds, and what is copied.
use libamvp.Common.{
  ℕ, ◌≤◌, ◌≡◌, refl, Option, none, some, List, ◌++◌, arith, length, take, drop, replicate,
  length-replicate, length-take, inl, inr, Bool, Bool-cases, ltb, true, false, if◌then◌else◌, ◌==◌,
  leb, ◌%◌,
}
use libamvp.SafeC.Errno.{Errno, eok, esnullp, eslemax, eszerol, Buf}
use libamvp.SafeC.Copy.{
  Copied, overwrite, memzero_s, memcpy_s, memmove_s, memset_s, move_bytes, rsize_max_mem, written,
  read_bytes, copy_or_clear,
}
use libamvp.SafeC.Copying.{overwrite_fits, overwritten-IsWithin}
use libamvp.SafeC.Bounds.{StaysWithin, StaysWithin-refl}

written_fits :
    (e : Errno) (dmax : ℕ) (dest : Buf) (xs : List ℕ)
    → length xs ≤ dmax
    → dmax ≤ length dest
    → StaysWithin dmax dest (written e (overwrite dest xs))
written_fits e dmax dest xs p q =
    rw (overwrite_fits dest xs (omega arith))
      (e, xs ++ drop (length xs) dest, refl, overwritten-IsWithin dmax dest xs p q)

filled_fits :
    (e : Errno) (dmax n c : ℕ) (dest : Buf)
    → n ≤ dmax
    → dmax ≤ length dest
    → StaysWithin dmax dest (written e (overwrite dest (replicate n c)))
filled_fits e dmax n c dest p q =
    written_fits e dmax dest (replicate n c) (omega (arith, length-replicate n c)) q

if-StaysWithin :
    (dmax : ℕ) (dest : Buf) (b : Bool) (x y : Copied)
    → (b ≡ true → StaysWithin dmax dest x)
    → (b ≡ false → StaysWithin dmax dest y)
    → StaysWithin dmax dest (if b then x else y)
if-StaysWithin dmax dest true x y p q = p refl
if-StaysWithin dmax dest false x y p q = q refl

moved_fits :
    (dmax n : ℕ) (dest src : Buf)
    → n ≤ dmax
    → n ≤ length src
    → dmax ≤ length dest
    → StaysWithin dmax dest (move_bytes dest (read_bytes src n))
unfolding move_bytes
moved_fits dmax n dest src p q r = elim (Bool-cases (leb n (length src))) [
  | inl fits ↦
      rw fits (written_fits eok dmax dest (take n src) (omega (arith, length-take n src)) r)
  | inr short ↦ absurd (ground arith)
]

-- A source that is there holds so many bytes.
abbrev HasBytes : ℕ → Option Buf → Type 0
HasBytes n none = Unit
HasBytes n (some s) = n ≤ length s

module _ (dest : Buf) (dmax : ℕ) (room : dmax ≤ length dest) where
  memzero_s_bounds : StaysWithin dmax dest (memzero_s (some dest) dmax)
  unfolding memzero_s
  memzero_s_bounds = filled_fits eok dmax dmax 0 dest (omega arith) room

  memcpy_s_bounds :
      (src : Buf) (slen : ℕ)
      → (slen ≤ dmax → slen ≤ length src)
      → StaysWithin dmax dest (memcpy_s (some dest) dmax (some src) slen)
  unfolding memcpy_s
  memcpy_s_bounds src slen h =
      if-StaysWithin dmax dest (ltb dmax slen) _ _ (λ e. StaysWithin-refl eslemax dmax dest)
        (λ e. moved_fits dmax slen dest src (ground arith) (h (ground arith)) room)

  memset_s_bounds : (c n : ℕ) → StaysWithin dmax dest (memset_s (some dest) dmax c n)
  unfolding memset_s
  memset_s_bounds c n =
      if-StaysWithin dmax dest (ltb rsize_max_mem dmax) _ _
        (λ e. StaysWithin-refl eslemax dmax dest)
        (λ e.
          if-StaysWithin dmax dest (ltb rsize_max_mem n) _ _
            (λ f. filled_fits eslemax dmax dmax (c % 256) dest (omega arith) room)
            (λ f.
              if-StaysWithin dmax dest (ltb dmax n) _ _
                (λ g. filled_fits eslemax dmax dmax (c % 256) dest (omega arith) room)
                (λ g. filled_fits eok dmax n (c % 256) dest (ground arith) room)))

  moved_or_null :
      (src : Option Buf) (smax : ℕ)
      → smax ≤ dmax
      → HasBytes smax src
      → StaysWithin dmax dest (copy_or_clear dest dmax smax src)
  unfolding copy_or_clear
  moved_or_null none smax p h = filled_fits esnullp dmax dmax 0 dest (omega arith) room
  moved_or_null (some s) smax p h = moved_fits dmax smax dest s p h room

  memmove_s_bounds :
      (src : Option Buf) (smax : ℕ)
      → (smax ≤ dmax → HasBytes smax src)
      → StaysWithin dmax dest (memmove_s (some dest) dmax src smax)
  unfolding memmove_s
  memmove_s_bounds src smax h =
      if-StaysWithin dmax dest (dmax == 0) _ _ (λ e. StaysWithin-refl eszerol dmax dest)
        (λ e.
          if-StaysWithin dmax dest (ltb rsize_max_mem dmax) _ _
            (λ f. StaysWithin-refl eslemax dmax dest)
            (λ f.
              if-StaysWithin dmax dest (smax == 0) _ _
                (λ g. filled_fits eszerol dmax dmax 0 dest (omega arith) room)
                (λ g.
                  if-StaysWithin dmax dest (ltb dmax smax) _ _
                    (λ k. filled_fits eslemax dmax dmax 0 dest (omega arith) room)
                    (λ k. moved_or_null src smax (ground arith) (h (ground arith))))))

-- With a limit not past the size of the destination, and a source object that holds what is asked
-- for, no fill or copy of safe_mem_stub.c faults or changes a byte from the limit on.
pub memory_bounds :
    (dest src : Buf) (dmax n c : ℕ)
    → dmax ≤ length dest
    → (n ≤ dmax → n ≤ length src)
    → StaysWithin dmax dest (memzero_s (some dest) dmax)
      × StaysWithin dmax dest (memset_s (some dest) dmax c n)
      × StaysWithin dmax dest (memcpy_s (some dest) dmax (some src) n)
      × StaysWithin dmax dest (memmove_s (some dest) dmax (some src) n)
memory_bounds dest src dmax n c room h = (
  memzero_s_bounds dest dmax room,
  memset_s_bounds dest dmax room c n,
  memcpy_s_bounds dest dmax room src n h,
  memmove_s_bounds dest dmax room (some src) n h,
)
