-- ===== src/RateManager/Bounds.antt =====
-- Bounds that hold of every limit after any calls: the bucket is never above its rate, and the
-- backoff lies between 1 and 60 seconds.
use a_curl_library.Base.{
  ℕ, ◌*◌, ◌≤◌, ◌^◌, ◌≡◌, refl, ap, ◌∙◌, Bool, true, false, ◌⊎◌, none, List, [], ◌∷◌, ℤ, All, arith,
  min, length, if◌then◌else◌,
}
use native.Mathlib.Nat.{pow-succ', mul_assoc}
use a_curl_library.External.Double.{Double, IsIeee}
use a_curl_library.External.Table.{Table, IsTable}
use a_curl_library.RateManager.{
  RateLimit, blank_limit, configure, refill, probe, admit, can_proceed_limit, start_limit,
  done_limit, backoff_limit,
}
use a_curl_library.RateManager.Calls.{Call, run, Everywhere, Allowed, run-Everywhere}

module _ {W : Type 0} ⦃d : Double W⦄ where
  pub record IsBounded (l : RateLimit W) : Type 0 where
    -- the rate is a number
    pub rate : d.ge l.max_rps l.max_rps ≡ true
    pub capped : d.ge l.max_rps l.tokens ≡ true
    pub positive : 1 ≤ l.backoff_seconds
    pub bounded : l.backoff_seconds ≤ 60

  -- `rate_manager_handle_429` at the times `ts`, one after the other.
  unfoldable pub rejections : List ℕ → RateLimit W → RateLimit W
  rejections [] l = l
  rejections (t ∷ ts) l = rejections ts (backoff_limit t l)

  -- All of them come two seconds or more after the last success.
  abbrev pub AllLate : List ℕ → RateLimit W → Type 0
  AllLate ts l = All (λ t. d.lt (d.time_diff t l.last_success) (d.of_nat 2) ≡ false) ts

  module _ (ieee : IsIeee W) where
    configure-IsBounded :
        (n : ℤ) (rps : W) (now later : ℕ) (l : RateLimit W)
        → d.ge rps rps ≡ true
        → (l ≡ blank_limit) ⊎ IsBounded l
        → IsBounded (configure n rps now later l)
    unfolding configure
    configure-IsBounded n rps now later l h old = record {
      rate = h;
      capped = h;
      positive = omega arith;
      bounded = omega arith;
    }

    refill-IsBounded : (now : ℕ) (l : RateLimit W) → IsBounded l → IsBounded (refill now l)
    unfolding refill
    refill-IsBounded now l h = record {
      rate = h.rate;
      capped = ieee.ge-fmin _ _ h.rate;
      positive = h.positive;
      bounded = h.bounded;
    }

    probe-IsBounded : (b : Bool) (l : RateLimit W) → IsBounded l → IsBounded (probe b l).0
    unfolding probe
    probe-IsBounded true l h = ground arith
    probe-IsBounded false l h = ground arith

    can_proceed-IsBounded :
        (now : ℕ) (b : Bool) (l : RateLimit W)
        → IsBounded l
        → IsBounded (can_proceed_limit now b l).0
    unfolding can_proceed_limit
    can_proceed-IsBounded now b l h = probe-IsBounded b (refill now l) (refill-IsBounded now l h)

    admit-IsBounded : (b : Bool) (l : RateLimit W) → IsBounded l → IsBounded (admit b l).0
    unfolding admit
    admit-IsBounded b l h = ground (arith, ieee.ge-sub_one l.max_rps l.tokens)

    start-IsBounded :
        (now : ℕ) (b : Bool) (l : RateLimit W) → IsBounded l → IsBounded (start_limit now b l).0
    unfolding start_limit
    start-IsBounded now b l h = admit-IsBounded b (refill now l) (refill-IsBounded now l h)

    done-IsBounded : (now : ℕ) (l : RateLimit W) → IsBounded l → IsBounded (done_limit now l)
    unfolding done_limit
    done-IsBounded now l h = ground arith

    -- The new backoff after a 429.
    pub backoff-doubles :
        (now : ℕ) (l : RateLimit W)
        → l.backoff_seconds ≤ 60
        → (backoff_limit now l).backoff_seconds ≡ (
            if d.lt (d.time_diff now l.last_success) (d.of_nat 2)
            then 1
            else min (l.backoff_seconds * 2) 60)
    unfolding backoff_limit
    backoff-doubles now l h = ground (
      arith,
      ieee.fmin-of_nat (l.backoff_seconds * 2) 60 (omega arith) (omega arith),
      ieee.trunc-of_nat (min (l.backoff_seconds * 2) 60) (omega arith),
    )

    backoff-rest :
        (now : ℕ) (l : RateLimit W)
        → ((backoff_limit now l).max_rps ≡ l.max_rps)
          × ((backoff_limit now l).tokens ≡ l.tokens)
          × ((backoff_limit now l).last_success ≡ l.last_success)
    unfolding backoff_limit
    backoff-rest now l = (refl, refl, refl)

    backoff-IsBounded : (now : ℕ) (l : RateLimit W) → IsBounded l → IsBounded (backoff_limit now l)
    backoff-IsBounded now l h = ground (arith, backoff-doubles now l h.bounded, backoff-rest now l)

    AllLate-backoff :
        (now : ℕ) (ts : List ℕ) (l : RateLimit W) → AllLate ts l → AllLate ts (backoff_limit now l)
    unfolding backoff_limit
    AllLate-backoff now ts l h = h

    pub rejections-backoff :
        (ts : List ℕ) (l : RateLimit W) (b : ℕ)
        → AllLate ts l
        → l.backoff_seconds ≡ min b 60
        → (rejections ts l).backoff_seconds ≡ min (b * 2 ^ length ts) 60
    unfolding rejections
    rejections-backoff [] l b late e = omega (arith, e)
    rejections-backoff (t ∷ ts) l b late e =
        rejections-backoff ts (backoff_limit t l) (b * 2) (AllLate-backoff t ts l late.1)
          (ground (arith, backoff-doubles t l (omega arith)))
        ∙ ap (λ x. min x 60) (rw (pow-succ' 2 (length ts)) (mul_assoc b 2 _))

    -- From a backoff of one second, the n-th 429 in a row that comes two seconds or more after the
    -- last success sets the backoff to 2 ^ n seconds, and to 60 where that is more.
    pub rejections_double :
        (ts : List ℕ) (l : RateLimit W)
        → AllLate ts l
        → l.backoff_seconds ≡ 1
        → (rejections ts l).backoff_seconds ≡ min (2 ^ length ts) 60
    rejections_double ts l late e =
        rejections-backoff ts l 1 late (omega (arith, e)) ∙ ap (λ x. min x 60) (omega arith)

module _ {K T W : Type 0} ⦃d : Double W⦄ ⦃t : Table K (RateLimit W) T⦄ (ieee : IsIeee W)
    (laws : IsTable K (RateLimit W) T) where
  abbrev pub IsNumber : W → Type 0
  IsNumber rps = d.ge rps rps ≡ true

  -- From no manager, after any calls, initialised or not, whose rates are numbers: every limit has
  -- at most `max_rps` tokens, and a backoff from 1 to 60 seconds.
  pub run-IsBounded :
      (cs : List (Call K W))
      → All (Allowed IsNumber) cs
      → Everywhere {T = T} IsBounded (run none cs)
  run-IsBounded cs sane =
      run-Everywhere laws IsNumber (configure-IsBounded ieee) (can_proceed-IsBounded ieee)
        (start-IsBounded ieee) (done-IsBounded ieee) (backoff-IsBounded ieee) none cs sane
        (record { at = λ k l e. cc })
