-- ===== src/Session/VectorSets.antt =====
-- amvp_process_vsid and amvp_process_tests of src/amvp.c. What they call (the transport, the JSON
-- parser, the algorithm handlers and the files) is an interface over a state of its own. The
-- actions are recorded, the latest first.
use libamvp.Common.{
  ℕ, zero, suc, ◌+◌, Bool, true, false, ◌&&◌, Option, none, some, List, [], ◌∷◌, ◌==◌,
  if◌then◌else◌, ℤ, pos, is_zero,
}
use libamvp.Result.{
  Result, success, transport_fail, json_err, missing_arg, kat_download_retry, is_success,
}
use libamvp.SafeC.Errno.{CStr}
use libamvp.Session.Retry.{Waited, retry_handler}

pub record Client (W Json : Type 0) : Type 0 where
  pub retrieve : CStr → W → Result × W  -- amvp_retrieve_vector_set
  pub parse : W → Option Json  -- json_parse_string of the received bytes
  pub retry_of : Json → ℤ  -- the number "retry" of the response object, 0 if there is none
  pub vector_req : W → Bool  -- only save the vector sets to a file
  pub write_header : W → Result × W  -- the session identifiers, as a new file
  pub append_set : Json → W → Result × W  -- the vector set, after those in the file
  pub close_file : W → Result × W  -- the last `]` of the file
  pub process_set : Json → W → Result × W  -- amvp_process_vector_set
  pub submit : CStr → W → Result × W  -- amvp_submit_vector_responses

pub data Action : Type 0 where
  fetched submitted : CStr → Action
  slept : ℕ → Action
  saved processed : Action

-- A result, the state, and the actions so far.
abbrev pub Run : Type 0 → Type 0
Run W = Result × W × List Action

abbrev pub is_retry : Result → Bool
is_retry kat_download_retry = true
is_retry _ = false

abbrev pub note_sleep : Option ℕ → List Action → List Action
note_sleep none done = done
note_sleep (some n) done = slept n ∷ done

module _ {W Json : Type 0} (c : Client W Json) where
  open c use {
    retrieve, parse, retry_of, vector_req, write_header, append_set, close_file, process_set,
    submit,
  }

  unfoldable pub append_saved : Json → W → List Action → Run W
  append_saved val w done = let (rv, w') = append_set val w in (rv, w', saved ∷ done)

  -- The vector set is saved, behind the session identifiers for the first set.
  unfoldable pub save_set : ℕ → Json → W → List Action → Run W
  unfolding append_saved
  save_set count val w done =
      let (rv, w') = write_header w in
      if count == 0
      then (if is_success rv then append_saved val w' done else (rv, w', done))
      else append_saved val w done

  unfoldable pub send_responses : CStr → W → List Action → Run W
  send_responses url w done = let (rv, w') = submit url w in (rv, w', submitted url ∷ done)

  -- The vector set is processed and its responses are sent.
  unfoldable pub respond : CStr → Json → W → List Action → Run W
  unfolding send_responses
  respond url val w done =
      let (rv, w') = process_set val w in
      if is_success rv then send_responses url w' (processed ∷ done) else (rv, w', processed ∷ done)

  abbrev pub Again : Type 0
  Again = ℕ → W → List Action → Option (Run W)

  unfoldable pub after_wait : Waited → W → List Action → Again → Option (Run W)
  after_wait r w done again =
      let more = again r.waited_so_far w (note_sleep r.slept done) in
      if is_retry r.result then more else some (transport_fail, w, done)

  unfoldable pub after_parse : CStr → ℕ → ℕ → Option Json → W → List Action → Again → Option (Run W)
  unfolding save_set respond after_wait
  after_parse url count waited none w done again = some (json_err, w, done)
  after_parse url count waited (some val) w done again =
      if is_zero (retry_of val)
      then some (if vector_req w then save_set count val w done else respond url val w done)
      else after_wait (retry_handler (retry_of val) waited (pos 1)) w done again

  unfoldable pub after_fetch : CStr → ℕ → ℕ → Result × W → List Action → Again → Option (Run W)
  unfolding after_parse
  after_fetch url count waited (rv, w) done again =
      if is_success rv
      then after_parse url count waited (parse w) w done again
      else some (rv, w, done)

  -- The loop over the answers of the server, on fuel; `none` is a loop that has not ended.
  unfoldable pub vsid_loop : ℕ → CStr → ℕ → ℕ → W → List Action → Option (Run W)
  unfolding after_fetch
  vsid_loop zero url count waited w done = none
  vsid_loop (suc fuel) url count waited w done =
      let again = vsid_loop fuel url count in
      after_fetch url count waited (retrieve url w) (fetched url ∷ done) again

  unfoldable pub process_vsid : CStr → ℕ → W → List Action → Option (Run W)
  unfolding vsid_loop
  process_vsid url count w done = vsid_loop 1201 url count 0 w done

  -- A failed vector set ends the loop.
  unfoldable pub go_on : Option (Run W) → (Run W → Option (Run W)) → Option (Run W)
  go_on none next = none
  go_on (some r) next = let more = next r in if is_success r.0 then more else some r

  -- The loop over the vector sets; it stops at the first that fails.
  unfoldable pub tests_loop : List CStr → ℕ → Result → W → List Action → Option (Run W)
  unfolding go_on
  tests_loop [] count rv w done = some (rv, w, done)
  tests_loop (url ∷ urls) count rv w done =
      let next = λ (r : Run W). tests_loop urls (count + 1) r.0 r.1 r.2 in
      go_on (process_vsid url count w done) next

  unfoldable pub close_tests : Run W → Run W
  close_tests (rv, w, done) =
      let (rv', w') = close_file w in
      if is_success rv && vector_req w then (rv', w', done) else (rv, w, done)

  unfoldable pub finish_tests : Option (Run W) → Option (Run W)
  unfolding close_tests
  finish_tests none = none
  finish_tests (some r) = some (close_tests r)

  -- amvp_process_tests with the list of vector set URLs of the context.
  unfoldable pub process_tests : List CStr → W → Option (Run W)
  unfolding finish_tests
  process_tests [] w = some (missing_arg, w, [])
  process_tests (url ∷ urls) w = finish_tests (tests_loop (url ∷ urls) 0 success w [])
