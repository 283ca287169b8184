-- ===== src/External/Double.antt =====
-- The `double` operations that rate_manager.c and compute_backoff_ms use, over an unknown type of
-- floating-point values.
use a_curl_library.Base.{ℕ, ◌<◌, ◌^◌, ◌≡◌, Bool, true, false, min}

pub record Double (W : Type 0) : Type 0 where
  pub of_nat : ℕ → W
  pub add : W → W → W
  pub sub : W → W → W
  pub mul : W → W → W
  pub div : W → W → W
  pub fmin : W → W → W
  pub ge : W → W → Bool
  pub lt : W → W → Bool
  -- the cast to uint64_t
  pub trunc : W → ℕ
  -- `macro_time_diff now before`, in seconds
  pub time_diff : ℕ → ℕ → W

-- What IEEE 754 says of them; `ge x x` leaves NaN out.
pub record IsIeee (W : Type 0) ⦃d : Double W⦄ : Type 0 where
  pub trunc-of_nat : (n : ℕ) → n < 2 ^ 53 → d.trunc (d.of_nat n) ≡ n
  pub fmin-of_nat :
      (a b : ℕ) → a < 2 ^ 53 → b < 2 ^ 53 → d.fmin (d.of_nat a) (d.of_nat b) ≡ d.of_nat (min a b)
  pub ge-fmin : (m x : W) → d.ge m m ≡ true → d.ge m (d.fmin m x) ≡ true
  pub lt-ge-fmin : (m x c : W) → d.lt m c ≡ true → d.ge (d.fmin m x) c ≡ false
  pub ge-sub_one : (m x : W) → d.ge m x ≡ true → d.ge m (d.sub x (d.of_nat 1)) ≡ true
  pub sub_one-nonneg :
      (x : W) → d.ge x (d.of_nat 1) ≡ true → d.ge (d.sub x (d.of_nat 1)) (d.of_nat 0) ≡ true
