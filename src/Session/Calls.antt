-- ===== src/Session/Calls.antt =====
-- The configuration of a session as a sequence of calls of the functions of src/amvp.c.
use libamvp.Common.{Bool, Option, none, some, List, [], ◌∷◌, ℤ}
use libamvp.SafeC.Errno.{CStr, Buf}
use libamvp.Session.Context.{Ctx, Outcome}
use libamvp.Session.Setters.{
  set_json_filename, set_server, set_path_segment, set_api_context, set_cacerts, set_certkey,
  mark_as_sample, mark_as_request_only, mark_as_get_only, mark_as_put_after_test, mark_as_cert_req,
  mark_as_post_only, mark_as_post_resources, mark_as_delete_only, set_get_save_file,
}

pub data Call : Type 0 where
  json_filename path_segment api_context cacerts : Option CStr → Bool → Call
  server : Option CStr → ℤ → Option Buf → Bool → Call
  certkey : Option CStr → Option CStr → Bool → Bool → Call
  sample : Call
  request_only get_only put_after_test cert_req : Option CStr → Bool → Call
  post_only post_resources delete_only get_save_file : Option CStr → Bool → Call

unfoldable pub apply : Ctx → Call → Outcome
apply c (json_filename s alloc) = set_json_filename c s alloc
apply c (path_segment s alloc) = set_path_segment c s alloc
apply c (api_context s alloc) = set_api_context c s alloc
apply c (cacerts s alloc) = set_cacerts c s alloc
apply c (server s port agent alloc) = set_server c s port agent alloc
apply c (certkey cert key a b) = set_certkey c cert key a b
apply c sample = mark_as_sample c
apply c (request_only s alloc) = mark_as_request_only c s alloc
apply c (get_only s alloc) = mark_as_get_only c s alloc
apply c (put_after_test s alloc) = mark_as_put_after_test c s alloc
apply c (cert_req s alloc) = mark_as_cert_req c s alloc
apply c (post_only s alloc) = mark_as_post_only c s alloc
apply c (post_resources s alloc) = mark_as_post_resources c s alloc
apply c (delete_only s alloc) = mark_as_delete_only c s alloc
apply c (get_save_file s alloc) = set_get_save_file c s alloc

-- The calls in order, their results dropped; `none` is a fault.
unfoldable pub configure : Ctx → List Call → Option Ctx
configure c [] = some c
configure c (call ∷ calls) = elim (apply c call) [ none ↦ none | some (r, c') ↦ configure c' calls ]
