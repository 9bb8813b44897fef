-- ===== src/Session/Retry.antt =====
-- amvp_retry_handler of src/amvp.c, with the limits of include/amvp/amvp_lcl.h. An `int` is a ℤ,
-- an `unsigned int` a number below 2 ^ 32. The situation only selects a log line.
use libamvp.Common.{
  ℕ, ◌+◌, ◌-◌, ◌*◌, ◌%◌, ◌^◌, ◌||◌, Option, none, some, ltb, leb, if◌then◌else◌, ℤ, pos, negsuc,
}
use libamvp.Result.{Result, transport_fail, kat_download_retry}

abbrev pub retry_time_min : ℕ
retry_time_min = 5

abbrev pub retry_time_max : ℕ
retry_time_max = 300

abbrev pub max_wait_time : ℕ
max_wait_time = 7200

abbrev pub retry_modifier_max : ℕ
retry_modifier_max = 10

-- The conversion of an `int` to `unsigned int`.
abbrev pub to_unsigned : ℤ → ℕ
to_unsigned (pos n) = n % 2 ^ 32
to_unsigned (negsuc n) = 2 ^ 32 - 1 - n % 2 ^ 32

-- The period is cut to the time that is left.
unfoldable pub cut_to_wait : ℤ → ℕ → ℤ
cut_to_wait period waited =
    if ltb max_wait_time ((waited + to_unsigned period) % 2 ^ 32)
    then pos (max_wait_time - waited)
    else period

-- A period outside the limits becomes the longest one.
unfoldable pub clamp_period : ℤ → ℕ
clamp_period (pos n) = if leb n retry_time_min || ltb retry_time_max n then retry_time_max else n
clamp_period (negsuc n) = retry_time_max

unfoldable pub clamp_modifier : ℤ → ℕ
clamp_modifier (pos n) = if ltb n 1 || ltb retry_modifier_max n then 1 else n
clamp_modifier (negsuc n) = 1

-- The period times the modifier, up to the longest period.
unfoldable pub next_period : ℕ → ℕ → ℕ
next_period period modifier =
    if ltb retry_time_max (period * modifier) then retry_time_max else period * modifier

pub record Waited : Type 0 where
  pub result : Result
  pub retry_period : ℤ
  pub waited_so_far : ℕ
  pub slept : Option ℕ  -- the argument of `sleep`, where it is called

unfoldable pub retry_handler : ℤ → ℕ → ℤ → Waited
unfolding cut_to_wait clamp_period clamp_modifier next_period
retry_handler period waited modifier =
    let p = clamp_period (cut_to_wait period waited) in
    let next = next_period p (clamp_modifier modifier) in
    if leb max_wait_time waited
    then record {
      result = transport_fail;
      retry_period = period;
      waited_so_far = waited;
      slept = none;
    }
    else record {
      result = kat_download_retry;
      retry_period = pos next;
      waited_so_far = (waited + next) % 2 ^ 32;
      slept = some p;
    }
