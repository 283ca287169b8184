-- ===== src/Request/Backoff.antt =====
-- The delays and the number of retries of the default policy.
use native.Mathlib.Nat.{mod-eq_of_lt, mod-lt}
use a_curl_library.Base.{
  ℕ, ◌+◌, ◌-◌, ◌/◌, ◌%◌, zero, suc, negsuc, pos_part, ◌^◌, ◌<◌, ◌≤◌, ◌≡◌, ◌⊎◌, refl, ap, ◌∙◌, ℤ,
  ◌||◌, Bool, true, false, List, [], ◌∷◌, pos, ◌+ℤ◌, arith, if◌then◌else◌, length, min, max,
  wrap_int, wrap_int-small, ltb_ℤ, ltb, Bool-cases, inl, inr,
}
use a_curl_library.External.Double.{Double}
use a_curl_library.Request.{Request}
use a_curl_library.Request.Retry.{
  attempts, backoff_base, is_unlimited, jittered, backoff_cap, compute_backoff_ms, schedule_retry,
  default_calculate_retry,
}

full_jitter_le :
    (cap_ms random : ℕ) → cap_ms + 1 < 2 ^ 64 → random % ((cap_ms + 1) % 2 ^ 64) ≤ cap_ms
full_jitter_le cap_ms random h =
    rw (mod-eq_of_lt h) (omega (arith, mod-lt random {m = cap_ms + 1} (omega arith)))

half_jitter_eq :
    (cap_ms random : ℕ)
    → cap_ms + 1 < 2 ^ 64
    → (cap_ms / 2 + random % (cap_ms / 2 + 1)) % 2 ^ 64 ≡ cap_ms / 2 + random % (cap_ms / 2 + 1)
half_jitter_eq cap_ms random h =
    mod-eq_of_lt (omega (arith, h, mod-lt random {m = cap_ms / 2 + 1} (omega arith)))

jittered_bounds :
    (cap_ms min_ms max_ms : ℕ) (full_jitter : Bool) (random : ℕ)
    → cap_ms + 1 < 2 ^ 64
    → let delay = jittered cap_ms min_ms max_ms full_jitter random in
      (0 < max_ms → delay ≤ max_ms)
      × ((max_ms ≡ 0) ⊎ (min_ms ≤ max_ms) → min_ms ≤ delay)
      × (max_ms ≡ 0 → delay ≤ max cap_ms min_ms)
      × (max_ms ≡ 0 → full_jitter ≡ false → cap_ms / 2 ≤ delay)
unfolding jittered
jittered_bounds cap_ms min_ms max_ms true random h =
    let few = full_jitter_le cap_ms random h in
    (λ x. ground (arith, few), λ x. ground (arith, few), λ x. ground (arith, few), λ x y. cc)
jittered_bounds cap_ms min_ms max_ms false random h =
    let few = mod-lt random {m = cap_ms / 2 + 1} (omega arith) in
    rw (half_jitter_eq cap_ms random h) (
      λ x. ground (arith, few),
      λ x. ground (arith, few),
      λ x. ground (arith, few),
      λ x y. ground (arith, few),
    )

-- the exponent: the number of the attempt, at least 1
abbrev pub exponent : ℤ → ℕ
exponent attempt = max (pos_part attempt) 1

attempts-exponent : (attempt : ℤ) → attempts attempt ≡ exponent attempt
attempts-exponent (pos zero) = refl
attempts-exponent (pos (suc n)) = omega arith
attempts-exponent (negsuc n) = refl

module _ {W : Type 0} ⦃d : Double W⦄ where
  -- the power of a factor
  unfoldable pub power : W → ℕ → W
  power factor zero = d.of_nat 1
  power factor (suc n) = d.mul (power factor n) factor

  -- the factor, or 2 where it is not positive
  abbrev pub growth : W → W
  growth factor = if d.lt (d.of_nat 0) factor then factor else d.of_nat 2

  -- the power of the growth, in units of 100 milliseconds
  unfoldable pub exponential_ms : ℤ → W → ℕ
  exponential_ms attempt factor =
      d.trunc (d.mul (power (growth factor) (exponent attempt)) (d.of_nat 100))

  base_step :
      (n : ℕ) (factor base : W)
      → backoff_base (suc n) factor base ≡ d.mul (backoff_base n factor base) (growth factor)
  unfolding backoff_base
  base_step zero factor base = refl
  base_step (suc n) factor base = base_step n factor (d.mul base (growth factor))

  base-power : (n : ℕ) (factor : W) → backoff_base n factor (d.of_nat 1) ≡ power (growth factor) n
  unfolding backoff_base power
  base-power zero factor = refl
  base-power (suc n) factor =
      base_step n factor (d.of_nat 1) ∙ ap (λ x. d.mul x (growth factor)) (base-power n factor)

  cap-exponential :
      (attempt : ℤ) (factor : W) → backoff_cap attempt factor ≡ exponential_ms attempt factor
  unfolding backoff_cap exponential_ms
  cap-exponential attempt factor =
      ap (λ n. d.trunc (d.mul (backoff_base n factor (d.of_nat 1)) (d.of_nat 100)))
        (attempts-exponent attempt)
      ∙ ap (λ x. d.trunc (d.mul x (d.of_nat 100))) (base-power (exponent attempt) factor)

  -- The exponential bound of an attempt is 100 milliseconds times the attempt's power of the factor,
  -- or of 2 where the factor is not positive. While that bound stays below 2 ^ 64 - 1, the delay is
  -- never above the maximum, if one is set, and never below the minimum, where the maximum allows
  -- that; and without a maximum it is at most the exponential bound or the minimum, and without full
  -- jitter at least half of that bound.
  pub backoff_bounds :
      (attempt : ℤ) (factor : W) (min_ms max_ms : ℕ) (full_jitter : Bool) (random : ℕ)
      → exponential_ms attempt factor + 1 < 2 ^ 64
      → let delay = compute_backoff_ms attempt factor min_ms max_ms full_jitter random in
        let cap_ms = exponential_ms attempt factor in
        (0 < max_ms → delay ≤ max_ms)
        × ((max_ms ≡ 0) ⊎ (min_ms ≤ max_ms) → min_ms ≤ delay)
        × (max_ms ≡ 0 → delay ≤ max cap_ms min_ms)
        × (max_ms ≡ 0 → full_jitter ≡ false → cap_ms / 2 ≤ delay)
  unfolding compute_backoff_ms
  backoff_bounds attempt factor min_ms max_ms full_jitter random h =
      rw (cap-exponential attempt factor)
        (jittered_bounds (exponential_ms attempt factor) min_ms max_ms full_jitter random h)

  -- How many of the calls, with their random numbers and times, grant a retry.
  unfoldable pub granted : List (ℕ × ℕ) → Request W → ℕ
  granted [] req = 0
  granted ((random, now) ∷ calls) req =
      let (req', again) = default_calculate_retry random now req in
      let more = granted calls req' in (if again then 1 else 0) + more

  schedule_rest :
      (k : ℤ) (random now : ℕ) (req : Request W)
      → ((schedule_retry k random now req).max_retries ≡ req.max_retries)
        × ((schedule_retry k random now req).current_retries ≡ k)
  unfolding schedule_retry
  schedule_rest k random now req = (refl, refl)

  allowed :
      (c m : ℕ) (req : Request W)
      → req.max_retries ≡ pos m
      → req.current_retries ≡ pos c
      → (is_unlimited req.max_retries || ltb_ℤ req.current_retries req.max_retries) ≡ ltb c m
  allowed c m req em ec = rw (em, ec) (ground arith)

  next_count :
      (c m : ℕ) (req : Request W)
      → req.current_retries ≡ pos c
      → c < m
      → m < 2 ^ 31
      → wrap_int 31 (req.current_retries +ℤ pos 1) ≡ pos (c + 1)
  next_count c m req ec less small =
      ap (λ x. wrap_int 31 (x +ℤ pos 1)) ec
      ∙ ap (wrap_int 31) (ground arith)
      ∙ wrap_int-small 31 (c + 1) (omega (arith, less, small))

  -- With at most `m` retries, of which `c` are used, the default policy grants exactly the next
  -- `m - c` calls, whatever the random numbers and the times are, and then none.
  pub granted_until_max :
      (calls : List (ℕ × ℕ)) (c m : ℕ) (req : Request W)
      → req.max_retries ≡ pos m
      → req.current_retries ≡ pos c
      → m < 2 ^ 31
      → granted calls req ≡ min (length calls) (m - c)
  unfolding granted default_calculate_retry
  granted_until_max [] c m req em ec small = omega arith
  granted_until_max ((random, now) ∷ calls) c m req em ec small = elim (Bool-cases (ltb c m)) [
    | inl again ↦
        let less : c < m = ground (arith, again) in
        let k = wrap_int 31 (req.current_retries +ℤ pos 1) in
        let req' = schedule_retry k random now req in
        let (em', ec') = schedule_rest k random now req in
        rw (allowed c m req em ec, again)
          (omega (
            arith,
            granted_until_max calls (c + 1) m req' (em' ∙ em)
                (ec' ∙ next_count c m req ec less small) small,
            less,
          ))
    | inr stop ↦
        let more : m ≤ c = ground (arith, stop) in
        rw (allowed c m req em ec, stop)
          (omega (arith, granted_until_max calls c m req em ec small, more))
  ]
