-- ===== src/Session/Waits.antt =====
-- How long amvp_process_vsid sleeps, whatever the server answers.
use libamvp.Common.{
  is_zero, ℕ, zero, suc, ◌+◌, ◌≤◌, ◌≡◌, refl, Option, none, some, List, [], ◌∷◌, arith, inl, inr,
  Bool-cases, leb, ℤ, pos,
}
use libamvp.Result.{is_success, transport_fail, json_err}
use libamvp.SafeC.Errno.{CStr}
use libamvp.Session.Retry.{retry_handler, max_wait_time}
use libamvp.Session.Waiting.{retry_handler_stops, retry_handler_waits}
use libamvp.Session.VectorSets.{
  Client, Action, fetched, slept, Run, after_wait, after_parse, after_fetch, vsid_loop,
  process_vsid, Again, save_set, append_saved, respond, send_responses,
}

-- The seconds slept in all.
abbrev pub total_slept : List Action → ℕ
total_slept [] = 0
total_slept (slept n ∷ done) = n + total_slept done
total_slept (_ ∷ done) = total_slept done

module _ {W Json : Type 0} (c : Client W Json) where
  -- The result of a run that starts at a recorded time stays within the time that is left.
  abbrev StaysBelow : ℕ → List Action → Option (Run W) → Type 0
  StaysBelow waited done r =
      (x : Run W) → r ≡ some x → total_slept x.2 + waited ≤ total_slept done + 7499

  abbrev AgainBelow : Again c → Type 0
  AgainBelow again =
      (t : ℕ) (w : W) (done : List Action) → t ≤ 7499 → StaysBelow t done (again t w done)

  same_slept :
      (waited : ℕ) (done : List Action) (r : Run W)
      → waited ≤ 7499
      → total_slept r.2 ≡ total_slept done
      → StaysBelow waited done (some r)
  same_slept waited done r h e x p = ground arith

  after_wait-StaysBelow :
      (period : ℤ) (waited : ℕ) (w : W) (done : List Action) (again : Again c)
      → waited ≤ 7499
      → AgainBelow again
      → StaysBelow waited done (after_wait c (retry_handler period waited (pos 1)) w done again)
  unfolding after_wait
  after_wait-StaysBelow period waited w done again b h =
      elim (Bool-cases (leb max_wait_time waited)) [
        | inl stop ↦
            rw (retry_handler_stops period (pos 1) waited (ground arith))
              (same_slept waited done (transport_fail, w, done) b refl)
        | inr go ↦
            let (p, s, low, high, res, grows, cap) =
              retry_handler_waits period (pos 1) waited (ground arith) in
            rw (res, s)
              (λ x e. omega (
                arith,
                h (retry_handler period waited (pos 1)).waited_so_far w (slept p ∷ done)
                    (ground arith) x e,
              ))
      ]

  save_set_slept :
      (count : ℕ) (val : Json) (w : W) (done : List Action)
      → total_slept (save_set c count val w done).2 ≡ total_slept done
  unfolding save_set append_saved
  save_set_slept count val w done = ground arith

  respond_slept :
      (url : CStr) (val : Json) (w : W) (done : List Action)
      → total_slept (respond c url val w done).2 ≡ total_slept done
  unfolding respond send_responses
  respond_slept url val w done = ground arith

  after_parse-StaysBelow :
      (url : CStr) (count waited : ℕ) (v : Option Json) (w : W) (done : List Action)
      (again : Again c)
      → waited ≤ 7499
      → AgainBelow again
      → StaysBelow waited done (after_parse c url count waited v w done again)
  unfolding after_parse
  after_parse-StaysBelow url count waited none w done again b h =
      same_slept waited done (json_err, w, done) b refl
  after_parse-StaysBelow url count waited (some val) w done again b h =
      elim (Bool-cases (is_zero (c.retry_of val))) [
        | inl ready ↦ rw ready (elim (Bool-cases (c.vector_req w)) [
          | inl save ↦ rw save (same_slept waited done _ b (save_set_slept count val w done))
          | inr send ↦ rw send (same_slept waited done _ b (respond_slept url val w done))
        ])
        | inr wait ↦ rw wait (after_wait-StaysBelow (c.retry_of val) waited w done again b h)
      ]

  vsid_loop-StaysBelow :
      (fuel : ℕ) (url : CStr) (count waited : ℕ) (w : W) (done : List Action)
      → waited ≤ 7499
      → StaysBelow waited done (vsid_loop c fuel url count waited w done)
  unfolding vsid_loop after_fetch
  vsid_loop-StaysBelow zero url count waited w done b = λ x e. cc
  vsid_loop-StaysBelow (suc fuel) url count waited w done b =
      elim (Bool-cases (is_success (c.retrieve url w).0)) [
        | inl ok ↦ rw ok (
            after_parse-StaysBelow url count waited _ _ (fetched url ∷ done) _ b
              (λ t w' done' le. vsid_loop-StaysBelow fuel url count t w' done' le))
        | inr bad ↦ rw bad (same_slept waited done _ b refl)
      ]

  -- Whatever the server answers, the sleeps for one vector set add up to at most 7499 seconds.
  pub process_vsid_slept :
      (url : CStr) (count : ℕ) (w : W) (done : List Action) (x : Run W)
      → process_vsid c url count w done ≡ some x
      → total_slept x.2 ≤ total_slept done + 7499
  unfolding process_vsid
  process_vsid_slept url count w done x e =
      omega (arith, vsid_loop-StaysBelow 1201 url count 0 w done (omega arith) x e)
