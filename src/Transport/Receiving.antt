-- ===== src/Transport/Receiving.antt =====
-- The body that amvp_curl_write_callback collects.
use libamvp.Common.{
  ℕ, zero, suc, ◌+◌, ◌-◌, ◌≤◌, ◌<◌, ◌≡◌, refl, sym, ap, none, some, List, [], ◌∷◌, ◌++◌, ◌∙◌, arith,
  length, take, drop, replicate, length-append, length-replicate,
}
use libamvp.SafeC.Errno.{eok}
use libamvp.SafeC.Copy.{memcpy_s}
use libamvp.SafeC.Copying.{overwrite_fits}
use libamvp.Transport.Network.{Receiver, allocated, terminate, curl_write_callback, received}

-- The buffer holds `body` and zeros up to its size `max`.
pub record Holds (max : ℕ) (body : List ℕ) (r : Receiver) : Type 0 where
  pub fills : allocated max r.curl_buf ≡ body ++ replicate (max - length body) 0
  pub counted : r.curl_read_ctr ≡ length body

drop-length : (xs ys : List ℕ) → drop (length xs) (xs ++ ys) ≡ ys
drop-length [] ys = refl
drop-length (x ∷ xs) ys = drop-length xs ys

take-length : (xs ys : List ℕ) → take (length xs) (xs ++ ys) ≡ xs
take-length [] ys = refl
take-length (x ∷ xs) ys = ap (λ zs. x ∷ zs) (take-length xs ys)

terminate_at :
    (xs : List ℕ) (n : ℕ)
    → terminate (xs ++ replicate (suc n) 0) (length xs) ≡ some (xs ++ replicate (suc n) 0)
unfolding terminate
terminate_at [] n = refl
terminate_at (x ∷ xs) n = rw (terminate_at xs n)

terminate_past : (xs : List ℕ) → terminate xs (length xs) ≡ none
unfolding terminate
terminate_past [] = refl
terminate_past (x ∷ xs) = rw (terminate_past xs)

drop-replicate : (n m : ℕ) → drop n (replicate {A = ℕ} m 0) ≡ replicate (m - n) 0
drop-replicate zero m = let e : m ≡ m - 0 = omega arith in ap (λ k. replicate {A = ℕ} k 0) e
drop-replicate (suc n) zero =
    let e : 0 ≡ 0 - suc n = omega arith in ap (λ k. replicate {A = ℕ} k 0) e
drop-replicate (suc n) (suc m) =
    let e : m - n ≡ suc m - suc n = omega arith in
    drop-replicate n m ∙ ap (λ k. replicate {A = ℕ} k 0) e

take-all : (xs : List ℕ) → take (length xs) xs ≡ xs
take-all [] = refl
take-all (x ∷ xs) = ap (λ zs. x ∷ zs) (take-all xs)

memcpy_s-zeros :
    (m : ℕ) (bytes : List ℕ)
    → length bytes ≤ m
    → memcpy_s (some (replicate m 0)) m (some bytes) (length bytes)
      ≡ some (eok, some (bytes ++ replicate (m - length bytes) 0))
unfolding memcpy_s
memcpy_s-zeros m bytes h =
    let fits = overwrite_fits (replicate m 0) bytes (omega (arith, length-replicate {A = ℕ} m 0)) in
    let ended = fits ∙ ap (λ zs. some (bytes ++ zs)) (drop-replicate (length bytes) m) in
    ground (arith, ended, take-all bytes)

append_assoc : (xs ys zs : List ℕ) → xs ++ (ys ++ zs) ≡ (xs ++ ys) ++ zs
append_assoc [] ys zs = refl
append_assoc (x ∷ xs) ys zs = ap (λ us. x ∷ us) (append_assoc xs ys zs)

append-nil : (xs : List ℕ) → xs ++ [] ≡ xs
append-nil [] = refl
append-nil (x ∷ xs) = ap (λ ys. x ∷ ys) (append-nil xs)

-- The buffer before the terminator is written.
curl_write_callback_body :
    (max : ℕ) (body bytes : List ℕ) (r : Receiver)
    → Holds max body r
    → length body + length bytes ≤ max
    → curl_write_callback max bytes 1 r
      ≡ received (length bytes) (length body) (
          terminate
            (body ++ (bytes ++ replicate (max - length body - length bytes) 0))
            (length body + length bytes))
unfolding curl_write_callback
curl_write_callback_body max body bytes r h k =
    let copied = memcpy_s-zeros (max - length body) bytes (omega arith) in
    rw
      (
        h.fills,
        h.counted,
        drop-length body (replicate {A = ℕ} (max - length body) 0),
        take-length body (replicate {A = ℕ} (max - length body) 0),
        copied,
      )
      (ground arith)

terminate_body :
    (body bytes : List ℕ) (j k : ℕ)
    → k ≡ suc j
    → terminate (body ++ (bytes ++ replicate k 0)) (length body + length bytes)
      ≡ some ((body ++ bytes) ++ replicate k 0)
terminate_body body bytes j k e =
    rw (e, append_assoc body bytes (replicate {A = ℕ} (suc j) 0), sym (length-append body bytes))
      (terminate_at (body ++ bytes) j)

-- A chunk that leaves room for the terminator is appended to the body, and the callback accepts
-- all its bytes.
pub curl_write_callback_appends :
    (max : ℕ) (body bytes : List ℕ) (r : Receiver)
    → Holds max body r
    → length body + length bytes < max
    → curl_write_callback max bytes 1 r
      ≡ some (
        length bytes,
        record {
          curl_buf = some ((body ++ bytes) ++ replicate (max - length (body ++ bytes)) 0);
          curl_read_ctr = length (body ++ bytes);
        },
      )
unfolding received
curl_write_callback_appends max body bytes r h k =
    let n = length-append body bytes in
    let j = max - length (body ++ bytes) - 1 in
    let e : max - length (body ++ bytes) ≡ max - length body - length bytes = omega arith in
    rw
      (
        curl_write_callback_body max body bytes r h (omega arith),
        terminate_body body bytes j (max - length body - length bytes) (omega arith),
        e,
        n,
      )
      refl

-- A chunk that fills the buffer is accepted, and its terminator is written past the allocation.
pub curl_write_callback_overflows :
    (max : ℕ) (body bytes : List ℕ) (r : Receiver)
    → Holds max body r
    → length body + length bytes ≡ max
    → curl_write_callback max bytes 1 r ≡ none
unfolding received
curl_write_callback_overflows max body bytes r h k =
    let n = length-append body bytes in
    let e : max - length body - length bytes ≡ 0 = omega arith in
    rw
      (
        curl_write_callback_body max body bytes r h (omega arith),
        e,
        append_assoc body bytes [],
        append-nil (body ++ bytes),
        sym n,
        terminate_past (body ++ bytes),
      )
      refl
