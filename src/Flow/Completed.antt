-- ===== src/Flow/Completed.antt =====
-- What a run of amvp_run that returns AMVP_SUCCESS has done.
use mathlib.Core.List.{reverse}
use mathlib.Core.Path.{subst}
use libamvp.Common.{
  ◌≡◌, refl, ap, ◌∙◌, sym, ◌⊎◌, inl, inr, Bool, true, false, Option, none, some, List, Bool-cases,
  if-both, if◌then◌else◌,
}
use libamvp.Result.{Result, success}
use libamvp.SafeC.Errno.{CStr}
use libamvp.Protocol.Json.{Json}
use libamvp.Session.VectorSets.{Action, process_tests}
use libamvp.Session.Submissions.{submissions, process_tests-submissions}
use libamvp.Flow.State.{Session, Peer}
use libamvp.Flow.Login.{login, build_login, network_action}
use libamvp.Flow.Register.{Registry, register, make_registration}
use libamvp.Flow.Registered.{Registered}
use libamvp.Flow.Registering.{register_decides}
use libamvp.Flow.Posting.{LoginPosted, Posted, login-Posted, register-Posted}
use libamvp.Flow.Polling.{Outcome, faulted, ended, check_test_results}
use libamvp.Flow.Run.{
  Config, Services, client, after_results, then_results, check, after_tests, with_info,
  after_register, with_validation, after_verify, run_session, run_mode, after_login, run,
}
use libamvp.Flow.Stages.{taken, passed_over, stage, verified}

module _ {Value Array Object : Type 0} (json : Json Value Array Object) {R : Type 0} (peer : Peer R)
    (registry : Registry R Value) (services : Services R Value Object) (config : Config) where
  -- The session has logged in, unless the environment says otherwise: the login was posted, and
  -- the server has answered it with the code 200.
  abbrev pub LoggedIn : Session R → Session R → Type 0
  LoggedIn s s1 =
      ((config.no_login ≡ true) × (s1 ≡ s))
      ⊎ ((login peer json (network_action peer json) false s ≡ (success, s1))
          × LoginPosted peer (build_login peer false s) s1)

  -- The session that is registered: the metadata is verified before where this is asked for.
  abbrev pub prepared : Bool → Session R → Session R
  prepared fips s =
      with_validation json peer registry services config fips
        (if fips then record s { remote = (services.verify_metadata s.remote).1 } else s)

  -- The session has registered: the registration was posted, the server has answered it with the
  -- code 200, and the vector sets of the answer are those of `s2`.
  abbrev pub HasRegistered : List CStr → Session R → Session R → Type 0
  HasRegistered before t s2 =
      (register json peer registry (network_action peer json) t ≡ (success, s2))
      × Posted json peer registry (make_registration json peer registry t).1 s2
      × Registered json before (success, s2)

  -- The results of the tests were retrieved without an error, and the answers before that sent.
  abbrev pub Tested : Session R → Type 0
  Tested s2 =
      (s3 : Session R) × (s4 : Session R) × (done : List Action) × (process_tests
          (client json peer registry services config) s2.vsid_url_list
          (with_info json peer registry services config s2)
        ≡ some (success, s3, done))
      × (submissions done ≡ reverse s2.vsid_url_list)
      × (check_test_results json peer (network_action peer json) config.verbose s3
          ≡ some (ended success s4))

  abbrev pub Completed : Bool → Session R → Type 0
  Completed fips s =
      (s1 : Session R) × (s2 : Session R) × LoggedIn s s1
      × HasRegistered s1.vsid_url_list (prepared fips s1) s2
      × Tested s2

  with_info-list :
      (s : Session R)
      → (with_info json peer registry services config s).vsid_url_list ≡ s.vsid_url_list
  with_info-list s =
      if-both (λ (t : Session R). t.vsid_url_list ≡ s.vsid_url_list) config.put refl refl

  then_results-success :
      (fips : Bool) (o : Option (Outcome R)) (s' : Session R)
      → then_results json peer registry services config fips o ≡ some (ended success s')
      → (s4 : Session R) × (o ≡ some (ended success s4))
  unfolding then_results
  then_results-success fips none s' h = cc
  then_results-success fips (some faulted) s' h = cc
  then_results-success fips (some (ended rv s)) s' h =
      let rest = some (after_results json peer registry services config fips s) in
      let (ok, more) = stage rv rest s s' h in (s, ap (λ r. some (ended r s)) ok)

  abbrev results : Bool → Session R → Option (Outcome R)
  results fips s =
      then_results json peer registry services config fips
        (check_test_results json peer (network_action peer json) config.verbose s)

  abbrev logged_in : Bool → Session R → Option (Outcome R)
  logged_in fips s =
      after_login json peer registry services config fips
        (login peer json (network_action peer json) false s)

  module _ (saves : config.vector_req ≡ false) where
    tested :
        (fips : Bool) (s2 s' : Session R) (o : Option (Result × Session R × List Action))
        → process_tests
            (client json peer registry services config)
            s2.vsid_url_list
            (with_info json peer registry services config s2)
          ≡ o
        → after_tests json peer registry services config fips o ≡ some (ended success s')
        → Tested s2
    unfolding after_tests check
    tested fips s2 s' none p h = cc
    tested fips s2 s' (some (rv, s3, done)) p h =
        let c = client json peer registry services config in
        let (ok, more) = stage rv (check json peer registry services config fips s3) s3 s' h in
        let (s4, e) =
          then_results-success fips
            (check_test_results json peer (network_action peer json) config.verbose s3) s'
            (passed_over config.vector_req (some (ended success s3)) (results fips s3) saves
              more) in
        let ran = p ∙ ap (λ r. some (r, s3, done)) ok in
        (
          s3,
          s4,
          done,
          ran,
          process_tests-submissions c (λ w. saves) s2.vsid_url_list
              (with_info json peer registry services config s2) s3 done ran,
          e,
        )

    registered :
        (fips : Bool) (before : List CStr) (t s' : Session R) (r : Result × Session R)
        → register json peer registry (network_action peer json) t ≡ r
        → Registered json before r
        → after_register json peer registry services config fips r ≡ some (ended success s')
        → (s2 : Session R) × HasRegistered before t s2 × Tested s2
    unfolding after_register
    registered fips before t s' (rv, s2) called reg h =
        let ran =
          process_tests (client json peer registry services config)
            (with_info json peer registry services config s2).vsid_url_list
            (with_info json peer registry services config s2) in
        let (ok, more) =
          stage rv (after_tests json peer registry services config fips ran) s2 s' h in
        let done = called ∙ ap (λ c. (c, s2)) ok in
        (
          s2,
          (
            done,
            register-Posted json peer registry t s2 done,
            subst (λ r. Registered json before (r, s2)) ok reg,
          ),
          tested fips s2 s' ran
              (ap
                (λ l.
                  process_tests (client json peer registry services config) l
                    (with_info json peer registry services config s2))
                (sym (with_info-list s2)))
              more,
        )

    session_run :
        (fips : Bool) (s s' : Session R)
        → run_session json peer registry services config fips s ≡ some (ended success s')
        → (s2 : Session R) × HasRegistered s.vsid_url_list (prepared fips s) s2 × Tested s2
    unfolding run_session after_verify
    session_run false s s' h =
        registered false s.vsid_url_list (prepared false s) s' _ refl
          (register_decides json peer registry (prepared false s)) h
    session_run true s s' h =
        let (rv, r) = services.verify_metadata s.remote in
        let answer = register json peer registry (network_action peer json) (prepared true s) in
        let rest = after_register json peer registry services config true answer in
        let more = verified rv rest (record s { remote = r }) s' h in
        registered true s.vsid_url_list (prepared true s) s' answer refl
          (register_decides json peer registry (prepared true s)) more

    module _ (no_get : config.get ≡ false) (no_post : config.post ≡ false)
        (no_resources : config.post_resources ≡ false) (no_cert : config.mod_cert_req ≡ false)
        (no_delete : config.delete ≡ false) where
      run_mode-session :
          (fips : Bool) (s : Session R)
          → run_mode json peer registry services config fips s
            ≡ run_session json peer registry services config fips s
      unfolding run_mode
      run_mode-session fips s = rw (no_get, no_post, no_resources, no_cert, no_delete) refl

      after_login-Completed :
          (fips : Bool) (r : Result × Session R) (s s' : Session R)
          → (r.0 ≡ success → LoggedIn s r.1)
          → after_login json peer registry services config fips r ≡ some (ended success s')
          → Completed fips s
      unfolding after_login
      after_login-Completed fips (rv, s1) s s' logged h =
          let (ok, more) = stage rv (run_mode json peer registry services config fips s1) s1 s' h in
          let (s2, reg, done) = session_run fips s1 s' (sym (run_mode-session fips s1) ∙ more) in
          (s1, s2, logged ok, reg, done)

      -- Where the context asks for none of the other modes (GET, POST, POST of resources, a
      -- module's certificate, DELETE, saving the vector sets to a file), a run of amvp_run that
      -- returns AMVP_SUCCESS has, unless AMVP_NO_LOGIN is set, logged in with a POST that the
      -- server has answered with the code 200; has then called amvp_register, which has sent a
      -- POST of the registration, also answered with the code 200, and has put the vector sets of
      -- this answer behind those of the list; has then sent the responses of every vector set of
      -- that list exactly once and in its order; and its call of amvp_check_test_results has then
      -- returned AMVP_SUCCESS.
      pub run_completes :
          (fips : Bool) (s s' : Session R)
          → run json peer registry services config fips s ≡ some (ended success s')
          → Completed fips s
      unfolding run
      run_completes fips s s' h = elim (Bool-cases config.no_login) [
        | inl skip ↦
            after_login-Completed fips (success, s) s s' (λ e. inl (skip, refl))
              (taken config.no_login
                (after_login json peer registry services config fips (success, s))
                (logged_in fips s) skip h)
        | inr must ↦
            after_login-Completed fips (login peer json (network_action peer json) false s) s s'
              (λ e.
                let done =
                  ap (λ rv. (rv, (login peer json (network_action peer json) false s).1)) e in
                inr (done, login-Posted json peer false s _ done))
              (passed_over config.no_login
                (after_login json peer registry services config fips (success, s))
                (logged_in fips s) must h)
      ]
