-- ===== src/Protocol/Handling.antt =====
-- What amvp_check_for_protocol_error and amvp_handle_protocol_error do with an error list.
use libamvp.Common.{ℕ, zero, suc, ◌≡◌, refl, none, some, List, [], ◌∷◌, arith, ◌<◌, ◌⊎◌, inl, inr}
use libamvp.Result.{Result}
use libamvp.SafeC.Errno.{CStr}
use libamvp.Protocol.Errors.{
  Category, general, auth, malformed_payload, invalid_request, on_server, cat_max, category_number,
  ErrorEntry, log_loop, handle_protocol_error,
}

log_loop_hangs :
    (fuel : ℕ) (e : ErrorEntry) (es : List ErrorEntry) (logged : List CStr)
    → log_loop fuel (e ∷ es) logged ≡ none
unfolding log_loop
log_loop_hangs zero e es logged = refl
log_loop_hangs (suc fuel) e es logged = log_loop_hangs fuel e es _

-- Whatever the number of iterations allowed, the handler does not return for an error of one of
-- the categories other than auth, if its error list is not empty.
pub handle_protocol_error_hangs :
    {W : Type 0} (refresh : W → Result × W) (fuel : ℕ) (c : Category) (d : CStr) (e : ErrorEntry)
    (es : List ErrorEntry) (w : W)
    → category_number c ≡ 0 ⊎ ((1 < category_number c) × (category_number c < 5))
    → handle_protocol_error refresh fuel
        (some record { category = c; category_desc = d; errors = e ∷ es })
        w
      ≡ none
unfolding handle_protocol_error
handle_protocol_error_hangs refresh fuel general d e es w h = rw (log_loop_hangs fuel e es [])
handle_protocol_error_hangs refresh fuel malformed_payload d e es w h =
    rw (log_loop_hangs fuel e es [])
handle_protocol_error_hangs refresh fuel invalid_request d e es w h =
    rw (log_loop_hangs fuel e es [])
handle_protocol_error_hangs refresh fuel on_server d e es w h = rw (log_loop_hangs fuel e es [])
handle_protocol_error_hangs refresh fuel auth d e es w (inl h) = absurd (omega arith)
handle_protocol_error_hangs refresh fuel auth d e es w (inr h) = absurd (omega arith)
handle_protocol_error_hangs refresh fuel cat_max d e es w (inl h) = absurd (omega arith)
handle_protocol_error_hangs refresh fuel cat_max d e es w (inr h) = absurd (omega arith)
