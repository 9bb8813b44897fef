-- ===== src/Session/Waiting.antt =====
-- How long amvp_retry_handler lets the library wait.
use libamvp.Common.{
  ℕ, ◌+◌, ◌*◌, ◌≤◌, ◌<◌, ◌≡◌, none, some, arith, ltb, ℤ, pos, negsuc, Bool-cases, inl, inr,
}
use libamvp.Result.{transport_fail, kat_download_retry}
use libamvp.Session.Retry.{
  retry_handler, max_wait_time, retry_time_max, cut_to_wait, clamp_period, clamp_modifier,
  next_period,
}

clamp_period_bounds : (period : ℤ) → (6 ≤ clamp_period period) × (clamp_period period ≤ 300)
unfolding clamp_period
clamp_period_bounds period = ground arith

clamp_modifier_pos : (modifier : ℤ) → 1 ≤ clamp_modifier modifier
unfolding clamp_modifier
clamp_modifier_pos modifier = ground arith

next_period_bounds : (p m : ℕ) → p ≤ 300 → 1 ≤ m → (p ≤ next_period p m) × (next_period p m ≤ 300)
unfolding next_period
next_period_bounds p m h k = elim (Bool-cases (ltb retry_time_max (p * m))) [
  | inl big ↦ rw big (h, omega arith)
  | inr fits ↦ rw fits (grind arith, ground arith)
]

-- The handler refuses exactly when the limit was reached before the call, and then changes and
-- waits for nothing.
pub retry_handler_stops :
    (period modifier : ℤ) (waited : ℕ)
    → max_wait_time ≤ waited
    → retry_handler period waited modifier ≡ record {
      result = transport_fail;
      retry_period = period;
      waited_so_far = waited;
      slept = none;
    }
unfolding retry_handler
retry_handler_stops period modifier waited h = ground arith

-- Below the limit the handler sleeps for 6 to 300 seconds, whatever period the server sent, and
-- the recorded time grows by 6 to 300 seconds, so it stays below 7500.
pub retry_handler_waits :
    (period modifier : ℤ) (waited : ℕ)
    → waited < max_wait_time
    → (p : ℕ) × ((retry_handler period waited modifier).slept ≡ some p)
      × (6 ≤ p)
      × (p ≤ 300)
      × ((retry_handler period waited modifier).result ≡ kat_download_retry)
      × (waited + p ≤ (retry_handler period waited modifier).waited_so_far)
      × ((retry_handler period waited modifier).waited_so_far ≤ waited + 300)
unfolding retry_handler
retry_handler_waits period modifier waited h =
    let p = clamp_period (cut_to_wait period waited) in
    let (low, high) = clamp_period_bounds (cut_to_wait period waited) in
    let (grows, capped) =
      next_period_bounds p (clamp_modifier modifier) high (clamp_modifier_pos modifier) in
    (p, ground arith, low, high, ground arith, ground arith, ground arith)

late_clamp :
    (period : ℤ) (waited : ℕ)
    → 7195 ≤ waited
    → waited < max_wait_time
    → clamp_period (cut_to_wait period waited) ≡ 300
unfolding clamp_period cut_to_wait
late_clamp (pos n) waited h k = ground arith
late_clamp (negsuc n) waited h k = ground arith

-- In the last five seconds below the limit the handler sleeps for the longest period, whatever
-- the server asked for, and the recorded time passes the limit.
pub late_wait_overruns :
    (period modifier : ℤ) (waited : ℕ)
    → 7195 ≤ waited
    → waited < max_wait_time
    → ((retry_handler period waited modifier).slept ≡ some 300)
      × ((retry_handler period waited modifier).waited_so_far ≡ waited + 300)
unfolding retry_handler
late_wait_overruns period modifier waited h k =
    let long : clamp_period (cut_to_wait period waited) ≡ 300 = late_clamp period waited h k in
    let (grows, capped) =
      next_period_bounds 300 (clamp_modifier modifier) (omega arith)
        (clamp_modifier_pos modifier) in
    (ground arith, ground arith)
