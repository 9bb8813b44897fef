-- ===== src/Session/Progress.antt =====
-- The polling of amvp_process_vsid ends, and its waits are bounded.
use libamvp.Common.{
  is_zero, ℕ, zero, suc, ◌+◌, ◌*◌, ◌≤◌, ◌<◌, ◌≡◌, refl, Option, none, some, List, [], ◌∷◌, arith,
  inl, inr, Bool-cases, leb, ℤ, pos,
}
use libamvp.Result.{Result, success, is_success, transport_fail}
use libamvp.SafeC.Errno.{CStr}
use libamvp.Session.Retry.{retry_handler, max_wait_time}
use libamvp.Session.Waiting.{retry_handler_stops, retry_handler_waits}
use libamvp.Session.VectorSets.{
  Client, Action, fetched, after_wait, after_parse, after_fetch, vsid_loop, process_vsid, Again,
  tests_loop, process_tests, close_tests,
}

-- A loop has ended.
abbrev pub Ends {ℓ} : {A : Type ℓ} → Option A → Type ℓ
Ends {A = A} r = (x : A) × (r ≡ some x)

module _ {W Json : Type 0} (c : Client W Json) where
  -- What a recursive call needs: it ends once the recorded time has grown by 6 seconds.
  abbrev EndsAfter : ℕ → Again c → Type 0
  EndsAfter waited again =
      waited < max_wait_time
      → (t : ℕ) (w : W) (done : List Action) → waited + 6 ≤ t
      → Ends (again t w done)

  after_wait-Ends :
      (period : ℤ) (waited : ℕ) (w : W) (done : List Action) (again : Again c)
      → EndsAfter waited again
      → Ends (after_wait c (retry_handler period waited (pos 1)) w done again)
  unfolding after_wait
  after_wait-Ends period waited w done again h = elim (Bool-cases (leb max_wait_time waited)) [
    | inl stop ↦
        rw (retry_handler_stops period (pos 1) waited (ground arith))
          ((transport_fail, w, done), refl)
    | inr go ↦
        let (p, s, low, high, res, grows, cap) =
          retry_handler_waits period (pos 1) waited (ground arith) in
        rw res (h (ground arith) _ w _ (omega arith))
  ]

  after_parse-Ends :
      (url : CStr) (count waited : ℕ) (v : Option Json) (w : W) (done : List Action)
      (again : Again c)
      → EndsAfter waited again
      → Ends (after_parse c url count waited v w done again)
  unfolding after_parse
  after_parse-Ends url count waited none w done again h = (_, refl)
  after_parse-Ends url count waited (some val) w done again h =
      elim (Bool-cases (is_zero (c.retry_of val))) [
        | inl ready ↦ rw ready (_, refl)
        | inr wait ↦ rw wait (after_wait-Ends (c.retry_of val) waited w done again h)
      ]

  after_fetch-Ends :
      (url : CStr) (count waited : ℕ) (r : Result × W) (done : List Action) (again : Again c)
      → EndsAfter waited again
      → Ends (after_fetch c url count waited r done again)
  unfolding after_fetch
  after_fetch-Ends url count waited (rv, w) done again h = elim (Bool-cases (is_success rv)) [
    | inl ok ↦ rw ok (after_parse-Ends url count waited (c.parse w) w done again h)
    | inr bad ↦ rw bad (_, refl)
  ]

  -- Fuel for the time that is left, at 6 seconds a round.
  vsid_loop-Ends :
      (fuel : ℕ) (url : CStr) (count waited : ℕ) (w : W) (done : List Action)
      → max_wait_time ≤ waited + 6 * fuel
      → Ends (vsid_loop c (suc fuel) url count waited w done)
  unfolding vsid_loop
  vsid_loop-Ends zero url count waited w done h =
      after_fetch-Ends url count waited (c.retrieve url w) (fetched url ∷ done)
        (vsid_loop c zero url count) (λ lt. absurd (omega arith))
  vsid_loop-Ends (suc fuel) url count waited w done h =
      after_fetch-Ends url count waited (c.retrieve url w) (fetched url ∷ done)
        (vsid_loop c (suc fuel) url count)
        (λ lt t w' done' le. vsid_loop-Ends fuel url count t w' done' (omega arith))

  -- Whatever the server answers and however often it asks to retry, the polling for one vector
  -- set ends within 1201 requests: `process_vsid` returns.
  pub process_vsid-Ends :
      (url : CStr) (count : ℕ) (w : W) (done : List Action) → Ends (process_vsid c url count w done)
  unfolding process_vsid
  process_vsid-Ends url count w done = vsid_loop-Ends 1200 url count 0 w done (omega arith)

  tests_loop-Ends :
      (urls : List CStr) (count : ℕ) (rv : Result) (w : W) (done : List Action)
      → Ends (tests_loop c urls count rv w done)
  unfolding tests_loop
  tests_loop-Ends [] count rv w done = (_, refl)
  tests_loop-Ends (url ∷ urls) count rv w done =
      let (r, e) = process_vsid-Ends url count w done in
      rw e (elim (Bool-cases (is_success r.0)) [
        | inl ok ↦ rw ok (tests_loop-Ends urls (count + 1) r.0 r.1 r.2)
        | inr bad ↦ rw bad (r, refl)
      ])

  -- The whole run over the vector sets returns, whatever the server answers.
  pub process_tests-Ends : (urls : List CStr) (w : W) → Ends (process_tests c urls w)
  unfolding process_tests
  process_tests-Ends [] w = (_, refl)
  process_tests-Ends (url ∷ urls) w =
      let (r, e) = tests_loop-Ends (url ∷ urls) 0 success w [] in
      (close_tests c r, rw (e, process_tests))
