-- ===== src/Request/Retry.antt =====
-- The default retry policy of src/curl_event_request.c. The random number of `xrng64` and the time of
-- `macro_now` are arguments; a cast of a double to uint64_t is that of `Double`.
use a_curl_library.Base.{
  ℕ, zero, suc, ◌+◌, ◌*◌, ◌/◌, ◌%◌, ◌^◌, Bool, true, false, ◌&&◌, ◌||◌, ℤ, pos, negsuc, ◌+ℤ◌, ltb_ℤ,
  wrap_int, ltb, if◌then◌else◌,
}
use a_curl_library.External.Double.{Double}
use a_curl_library.Request.{Request}

-- `attempt`, at least 1, as the bound of the loop
abbrev pub attempts : ℤ → ℕ
attempts (pos (suc n)) = suc n
attempts _ = 1

abbrev pub is_unlimited : ℤ → Bool
is_unlimited (negsuc zero) = true
is_unlimited _ = false

-- the jitter, and the floor and the cap where they are not 0
unfoldable pub jittered : (cap_ms min_ms max_ms : ℕ) (full_jitter : Bool) (random : ℕ) → ℕ
jittered cap_ms min_ms max_ms full_jitter random =
    let jitter =
      if full_jitter then random % ((cap_ms + 1) % 2 ^ 64) else random % (cap_ms / 2 + 1) in
    let delay = if full_jitter then jitter else (cap_ms / 2 + jitter) % 2 ^ 64 in
    let raised = if ltb 0 min_ms && ltb delay min_ms then min_ms else delay in
    if ltb 0 max_ms && ltb max_ms raised then max_ms else raised

module _ {W : Type 0} ⦃d : Double W⦄ where
  -- the loop over the attempts
  unfoldable pub backoff_base : ℕ → W → W → W
  backoff_base zero factor base = base
  backoff_base (suc n) factor base =
      backoff_base n factor (d.mul base (if d.lt (d.of_nat 0) factor then factor else d.of_nat 2))

  unfoldable pub backoff_cap : ℤ → W → ℕ
  unfolding backoff_base
  backoff_cap attempt factor =
      d.trunc (d.mul (backoff_base (attempts attempt) factor (d.of_nat 1)) (d.of_nat 100))

  -- `compute_backoff_ms`
  unfoldable pub compute_backoff_ms : ℤ → W → ℕ → ℕ → Bool → (random : ℕ) → ℕ
  unfolding backoff_cap jittered
  compute_backoff_ms attempt factor min_ms max_ms full_jitter random =
      jittered (backoff_cap attempt factor) min_ms max_ms full_jitter random

  -- the retry with the number `current`
  unfoldable pub schedule_retry : (current : ℤ) (random now : ℕ) → Request W → Request W
  unfolding compute_backoff_ms
  schedule_retry current random now req =
      let delay_ms =
        compute_backoff_ms current req.backoff_factor req.min_backoff_delay_ms
          req.max_backoff_delay_ms req.full_jitter random in
      record req {
        current_retries = current;
        next_retry_at = (now + delay_ms * 1_000_000 % 2 ^ 64) % 2 ^ 64;
      }

  -- `default_calculate_retry_enhanced`; an int has 32 bits
  unfoldable pub default_calculate_retry : (random now : ℕ) → Request W → Request W × Bool
  unfolding schedule_retry
  default_calculate_retry random now req =
      if is_unlimited req.max_retries || ltb_ℤ req.current_retries req.max_retries
      then (schedule_retry (wrap_int 31 (req.current_retries +ℤ pos 1)) random now req, true)
      else (req, false)
