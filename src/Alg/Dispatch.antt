-- ===== src/Alg/Dispatch.antt =====
-- amvp_dispatch_vector_set and amvp_process_vector_set of src/amvp.c. The handlers are called
-- through an interface over a state of their own.
use Prim.Native.Nat.{Ordering}
use libamvp.Common.{Option, none, some, List, [], ◌∷◌, if◌then◌else◌, ℤ}
use libamvp.Result.{Result, unsupported_op, json_err, success, is_success}
use libamvp.SafeC.Errno.{CStr}
use libamvp.SafeC.Compare.{strcmp_s}
use libamvp.Util.StringList.{is_equal}
use libamvp.Alg.Entry.{Handler, AlgHandler}
use libamvp.Alg.Table.{alg_tbl}
use libamvp.Alg.Lookup.{name_diff, mode_diff}

-- What is read of a vector set, the context's `vs_id`, and the call of a handler.
pub record VectorSet (W Object : Type 0) : Type 0 where
  pub algorithm : Object → Option CStr
  pub mode : Object → Option CStr
  pub vs_id : Object → ℤ
  pub set_vs_id : ℤ → W → W
  pub handle : Handler → Object → W → Result × W

-- `diff` lives on from one entry to the next.
unfoldable pub after_mode :
    AlgHandler → Option CStr → CStr → Ordering → (Ordering → Option AlgHandler) → Option AlgHandler
unfolding strcmp_s
after_mode e none wanted diff more = more diff
after_mode e (some m) wanted diff more =
    let d = mode_diff m wanted diff in let rest = more d in if is_equal d then some e else rest

unfoldable pub after_name :
    AlgHandler → Option CStr → Ordering → (Ordering → Option AlgHandler) → Option AlgHandler
unfolding after_mode
after_name e none diff more = some e
after_name e (some wanted) diff more = after_mode e e.mode wanted diff more

-- The entry whose handler is called.
unfoldable pub dispatch_loop : List AlgHandler → CStr → Option CStr → Ordering → Option AlgHandler
unfolding after_name
dispatch_loop [] alg mode diff = none
dispatch_loop (e ∷ tbl) alg mode diff =
    let d = name_diff e alg diff in
    let named = after_name e mode d (dispatch_loop tbl alg mode) in
    let rest = dispatch_loop tbl alg mode d in if is_equal d then named else rest

module _ {W Object : Type 0} (c : VectorSet W Object) where
  open c use {algorithm, mode, vs_id, set_vs_id, handle}

  unfoldable pub call_handler : Option AlgHandler → Object → W → Result × W
  call_handler none obj w = (unsupported_op, w)
  call_handler (some e) obj w = handle e.handler obj w

  unfoldable pub dispatch_on : Option CStr → Object → W → Result × W
  unfolding call_handler dispatch_loop
  dispatch_on none obj w = (json_err, w)
  dispatch_on (some alg) obj w =
      call_handler (dispatch_loop alg_tbl alg (mode obj) Ordering.gt) obj w

  unfoldable pub dispatch_vector_set : Object → W → Result × W
  unfolding dispatch_on
  dispatch_vector_set obj w = dispatch_on (algorithm obj) obj (set_vs_id (vs_id obj) w)

  unfoldable pub process_vector_set : Object → W → Result × W
  unfolding dispatch_vector_set
  process_vector_set obj w =
      let (rv, w') = dispatch_vector_set obj w in if is_success rv then (success, w') else (rv, w')
