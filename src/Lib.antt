-- ===== src/Lib.antt =====
-- libamvp, a client for validation of cryptographic modules: it configures a test session, talks
-- to a server over HTTPS, downloads vector sets, lets the application process them and sends the
-- responses. This library models the parts below in the order in which they rest on each other;
-- each file opens with the code it is about. `none` of an outer Option is undefined behaviour (a
-- write outside an object, memory freed twice) or, on fuel, a loop that has not ended.
--
-- Common: the native numbers, integers for C's int, Boolean tests, lists and the bytes of text.
-- Result: AMVP_RESULT (include/amvp/amvp.h). SafeC: the bounds-checked string and memory functions
-- (safe_c_stub/src/safe_str_stub.c, safe_mem_stub.c) on byte lists: SafeC/Compare and SafeC/Copy
-- have the functions under their names, the other files what they do. The overlap check of
-- strncpy_s takes the distance of the two pointers as an argument.
--
-- Session: src/amvp.c. Session/Context has the fields of AMVP_CTX (include/amvp/amvp_lcl.h) that a
-- configuration sets; a string field is NULL, a released pointer or an object with its bytes, and
-- whether an allocation succeeds is an argument. Session/Setters has amvp_set_* and
-- amvp_mark_as_*, Session/Calls a configuration as a sequence of them. Session/Retry is
-- amvp_retry_handler. Session/VectorSets is amvp_process_vsid and amvp_process_tests over an
-- interface for what they call (the transport, the JSON parser, the algorithm handlers, the
-- files); it records the fetches, sleeps and submissions. Their loop runs on 1201 iterations of
-- fuel: every iteration but the last adds at least 6 seconds to the recorded time, and the handler
-- refuses from 7200 seconds on.
--
-- Protocol: the errors of src/amvp_error.c and their handling in src/amvp.c, over an interface for
-- the JSON library; the logging loop runs on any fuel. Transport: amvp_network_action,
-- execute_network_action, inspect_http_code and amvp_curl_write_callback of src/amvp_transport.c,
-- built without AMVP_DEPRECATED, over an interface for curl and the login. The size of the receive
-- buffer is an argument. Util: hexadecimal text, the lists and the error strings of
-- src/amvp_util.c.
--
-- Env: src/amvp_operating_env.c. Env/Types has the tables of AMVP_OPERATING_ENV, as lists of the
-- entries in use, where a pointer to an entry is its index; Env/Tables has the functions that fill
-- them, copy_oe_string, find_* and amvp_oe_* (without that prefix), Env/Ops their calls as steps
-- of a state machine, and Env/View the finite map that the table of dependencies stands for.
-- Env/Pages is the search of a page of the server (compare_dependencies, match_dependencies_page,
-- match_oes_page), Env/Query the queries over the pages and Env/Verify the verification of an
-- environment with its dependencies, over an interface for amvp_transport_get and the JSON
-- library. Env/Contacts, Env/Vendors, Env/VendorQuery and Env/Modules are the same for a vendor
-- with its contacts and for a module, Env/Metadata the whole of
-- amvp_verify_fips_validation_metadata; Env/Loading reads the modules and environments of the
-- metadata file, and Env/Choice chooses what is verified. Each query runs on fuel, one unit for a
-- page or an email.
--
-- Alg: the algorithm table. Alg/Cipher and Alg/Sub have the enumerations of include/amvp/amvp.h,
-- Alg/SubValue the values of the sub-types, Alg/Entry and Alg/Table the table alg_tbl of
-- src/amvp.c with the strings of include/amvp/amvp_lcl.h written out, Alg/Lookup the searches in
-- it (src/amvp_util.c) and Alg/Dispatch is amvp_dispatch_vector_set. Flow: amvp_run of src/amvp.c.
-- Flow/State has the fields of AMVP_CTX that a run changes, with all HTTP requests recorded;
-- Flow/Requests is the part of src/amvp_transport.c that makes requests of them, Flow/Login the
-- login and the refresh (amvp_build_login, amvp_parse_login, amvp_login, amvp_refresh),
-- Flow/Register is amvp_register, Flow/Results and Flow/Polling are amvp_get_result_test_session,
-- Flow/Ending has amvp_validate_test_session and amvp_cert_req, and Flow/Run puts them together
-- with Session/VectorSets and Alg/Dispatch. The actions of the network call the login for a
-- refresh, and the login sends an action that never refreshes, so the two are defined one after
-- the other. The polling for results runs on 1201 iterations of fuel, for the reason given above.
-- What a run calls and this library does not model is the record Services of Flow/Run.
--
-- Examples: the theorems at concrete inputs.
--
-- Not modelled: the JSON library (src/parson.c, a copy of another project), sockets and TLS, log
-- output and the application (app/), which the rest only calls; strtok_s, the registration of
-- capabilities (src/amvp_capabilities.c, src/amvp_build_register.c), the vendors of the metadata
-- file (in src/amvp_operating_env.c), the session's file, the requests from files and the evidence
-- of a module's certificate (in src/amvp.c), and the algorithm handlers, which are separate parts
-- over the ones above.
pub mod Common
pub mod Result
pub mod SafeC
pub mod Session
pub mod Protocol
pub mod Transport
pub mod Util
pub mod Env
pub mod Alg
pub mod Flow
pub mod Examples
