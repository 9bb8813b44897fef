-- ===== src/Session/Submissions.antt =====
-- A run of amvp_process_tests that succeeds has answered every vector set once, in order.
use mathlib.Core.List.{reverse, reverse_aux}
use libamvp.Common.{
  is_zero, ℕ, zero, suc, ◌+◌, ◌≡◌, refl, true, false, Option, none, some, List, [], ◌∷◌, arith, inl,
  inr, Bool-cases, pos,
}
use libamvp.Result.{Result, success, is_success, transport_fail, json_err}
use libamvp.SafeC.Errno.{CStr}
use libamvp.Session.Retry.{Waited, retry_handler}
use libamvp.Session.VectorSets.{
  Client, Action, fetched, submitted, Run, is_retry, note_sleep, after_wait, after_parse,
  after_fetch, vsid_loop, process_vsid, Again, respond, send_responses, tests_loop, process_tests,
  close_tests, go_on, finish_tests,
}

-- The vector sets whose responses were sent, the latest first.
abbrev pub submissions : List Action → List CStr
submissions [] = []
submissions (submitted url ∷ done) = url ∷ submissions done
submissions (_ ∷ done) = submissions done

submissions-note_sleep :
    (s : Option ℕ) (done : List Action) → submissions (note_sleep s done) ≡ submissions done
submissions-note_sleep none done = refl
submissions-note_sleep (some n) done = refl

module _ {W Json : Type 0} (c : Client W Json) (answers : (w : W) → c.vector_req w ≡ false) where
  -- A success has added the vector set to what was sent before.
  abbrev Sends : CStr → List CStr → Option (Run W) → Type 0
  Sends url before r =
      (x : Run W) → r ≡ some x → is_success x.0 ≡ true → submissions x.2 ≡ url ∷ before

  abbrev AgainSends : CStr → List CStr → Again c → Type 0
  AgainSends url before again =
      (t : ℕ) (w : W) (done : List Action)
      → submissions done ≡ before
      → Sends url before (again t w done)

  respond-Sends :
      (url : CStr) (val : Json) (w : W) (done : List Action)
      → Sends url (submissions done) (some (respond c url val w done))
  unfolding respond send_responses
  respond-Sends url val w done x e s = ground arith

  fails :
      (url : CStr) (before : List CStr) (r : Run W)
      → is_success r.0 ≡ false
      → Sends url before (some r)
  fails url before r f x e s = ground arith

  after_wait-Sends :
      (url : CStr) (r : Waited) (w : W) (done : List Action) (again : Again c)
      → AgainSends url (submissions done) again
      → Sends url (submissions done) (after_wait c r w done again)
  unfolding after_wait
  after_wait-Sends url r w done again h = elim (Bool-cases (is_retry r.result)) [
    | inl go ↦ rw go (h r.waited_so_far w _ (submissions-note_sleep r.slept done))
    | inr stop ↦ rw stop (fails url _ (transport_fail, w, done) refl)
  ]

  after_parse-Sends :
      (url : CStr) (count waited : ℕ) (v : Option Json) (w : W) (done : List Action)
      (again : Again c)
      → AgainSends url (submissions done) again
      → Sends url (submissions done) (after_parse c url count waited v w done again)
  unfolding after_parse
  after_parse-Sends url count waited none w done again h = fails url _ (json_err, w, done) refl
  after_parse-Sends url count waited (some val) w done again h =
      elim (Bool-cases (is_zero (c.retry_of val))) [
        | inl ready ↦ rw (ready, answers w) (respond-Sends url val w done)
        | inr wait ↦
            rw wait
              (after_wait-Sends url (retry_handler (c.retry_of val) waited (pos 1)) w done again h)
      ]

  vsid_loop-Sends :
      (fuel : ℕ) (url : CStr) (count waited : ℕ) (w : W) (done : List Action) (before : List CStr)
      → submissions done ≡ before
      → Sends url before (vsid_loop c fuel url count waited w done)
  unfolding vsid_loop after_fetch
  vsid_loop-Sends zero url count waited w done before b = λ x e s. cc
  vsid_loop-Sends (suc fuel) url count waited w done before b =
      elim (Bool-cases (is_success (c.retrieve url w).0)) [
        | inl ok ↦ rw ok (
            rw (← b) (
              after_parse-Sends url count waited _ _ (fetched url ∷ done) _
                (λ t w' done' p. vsid_loop-Sends fuel url count t w' done' (submissions done) p)))
        | inr bad ↦ rw bad (fails url before _ bad)
      ]

  -- One vector set, and the rest where it succeeded.
  go_on-submissions :
      (url : CStr) (urls before : List CStr) (o : Option (Run W)) (next : Run W → Option (Run W))
      → Sends url before o
      → ((r x : Run W)
          → next r ≡ some x
          → is_success x.0 ≡ true
          → submissions x.2 ≡ reverse_aux urls (submissions r.2))
      → (x : Run W) → go_on c o next ≡ some x
      → is_success x.0 ≡ true
      → submissions x.2 ≡ reverse_aux (url ∷ urls) before
  unfolding go_on
  go_on-submissions url urls before none next h k x e s = cc
  go_on-submissions url urls before (some r) next h k x e s = elim (Bool-cases (is_success r.0)) [
    | inl ok ↦ rw (← h r refl ok) (k r x (rw ok at e) s)
    | inr bad ↦ ground arith
  ]

  tests_loop-submissions :
      (urls : List CStr) (count : ℕ) (rv : Result) (w : W) (done : List Action) (x : Run W)
      → tests_loop c urls count rv w done ≡ some x
      → is_success x.0 ≡ true
      → submissions x.2 ≡ reverse_aux urls (submissions done)
  unfolding tests_loop
  tests_loop-submissions [] count rv w done x e s = ground arith
  tests_loop-submissions (url ∷ urls) count rv w done x e s =
      go_on-submissions url urls (submissions done) (process_vsid c url count w done)
        (λ r. tests_loop c urls (count + 1) r.0 r.1 r.2)
        (unfold process_vsid in vsid_loop-Sends 1201 url count 0 w done (submissions done) refl)
        (λ r y. tests_loop-submissions urls (count + 1) r.0 r.1 r.2 y) x e s

  finish_tests-submissions :
      (urls : List CStr) (o : Option (Run W))
      → ((x : Run W) → o ≡ some x → is_success x.0 ≡ true → submissions x.2 ≡ reverse urls)
      → (w' : W) (done : List Action) → finish_tests c o ≡ some (success, w', done)
      → submissions done ≡ reverse urls
  unfolding finish_tests close_tests
  finish_tests-submissions urls none h w' done e = cc
  finish_tests-submissions urls (some (rv, w, d)) h w' done e =
      ground (arith, h (rv, w, d) refl, answers w)

  -- Where the vector sets are not just saved to a file, a run that succeeds has sent the
  -- responses of every vector set of the session exactly once, in the order of the session.
  pub process_tests-submissions :
      (urls : List CStr) (w w' : W) (done : List Action)
      → process_tests c urls w ≡ some (success, w', done)
      → submissions done ≡ reverse urls
  unfolding process_tests
  process_tests-submissions [] w w' done e = cc
  process_tests-submissions (url ∷ urls) w w' done e =
      finish_tests-submissions (url ∷ urls) (tests_loop c (url ∷ urls) 0 success w [])
        (tests_loop-submissions (url ∷ urls) 0 success w []) w' done e
