-- ===== src/RateManager/Starvation.antt =====
-- Rates below one request a second: the bucket never holds a whole token.
use a_curl_library.Base.{ℕ, ◌≡◌, ◌⊎◌, Bool, true, false, none, List, ℤ, All, arith}
use a_curl_library.External.Double.{Double, IsIeee}
use a_curl_library.External.Table.{Table, IsTable}
use a_curl_library.RateManager.{
  RateLimit, blank_limit, configure, refill, wait_ns, has_token, probe, admit, can_proceed_limit,
  start_limit, done_limit, backoff_limit,
}
use a_curl_library.RateManager.Calls.{Call, run, Everywhere, Allowed, run-Everywhere}

module _ {W : Type 0} ⦃d : Double W⦄ where
  -- Fewer than one request a second.
  abbrev pub IsSlow : W → Type 0
  IsSlow rps = d.lt rps (d.of_nat 1) ≡ true

  pub record IsStarved (l : RateLimit W) : Type 0 where
    pub slow : IsSlow l.max_rps
    pub idle : l.current_requests ≡ 0

  module _ (ieee : IsIeee W) where
    refill-no_token :
        (now : ℕ) (l : RateLimit W) → IsSlow l.max_rps → has_token (refill now l) ≡ false
    unfolding refill
    refill-no_token now l h = ieee.lt-ge-fmin l.max_rps _ (d.of_nat 1) h

    probe_refused : (b : Bool) (l : RateLimit W) → has_token l ≡ false → (probe b l).1 ≡ wait_ns l
    unfolding probe
    probe_refused true l h = ground arith
    probe_refused false l h = ground arith

    admit_refused : (b : Bool) (l : RateLimit W) → has_token l ≡ false → admit b l ≡ (l, wait_ns l)
    unfolding admit
    admit_refused b l h = ground arith

    -- With a rate below one, however long ago the last refill was, a start counts nothing and takes
    -- no token, and both it and the probe answer the computed wait, at either priority.
    pub slow_never_starts :
        (now : ℕ) (b : Bool) (l : RateLimit W)
        → IsSlow l.max_rps
        → (start_limit now b l ≡ (refill now l, wait_ns (refill now l)))
          × ((can_proceed_limit now b l).1 ≡ wait_ns (refill now l))
    unfolding start_limit can_proceed_limit
    slow_never_starts now b l h =
        let empty = refill-no_token now l h in
        (admit_refused b (refill now l) empty, probe_refused b (refill now l) empty)

    refill-IsStarved : (now : ℕ) (l : RateLimit W) → IsStarved l → IsStarved (refill now l)
    unfolding refill
    refill-IsStarved now l h = record { slow = h.slow; idle = h.idle }

    probe-IsStarved : (b : Bool) (l : RateLimit W) → IsStarved l → IsStarved (probe b l).0
    unfolding probe
    probe-IsStarved true l h = ground arith
    probe-IsStarved false l h = ground arith

    can_proceed-IsStarved :
        (now : ℕ) (b : Bool) (l : RateLimit W)
        → IsStarved l
        → IsStarved (can_proceed_limit now b l).0
    unfolding can_proceed_limit
    can_proceed-IsStarved now b l h = probe-IsStarved b (refill now l) (refill-IsStarved now l h)

    start-IsStarved :
        (now : ℕ) (b : Bool) (l : RateLimit W) → IsStarved l → IsStarved (start_limit now b l).0
    start-IsStarved now b l h = rw ((slow_never_starts now b l h.slow).0) (refill-IsStarved now l h)

    configure-IsStarved :
        (n : ℤ) (rps : W) (now later : ℕ) (l : RateLimit W)
        → IsSlow rps
        → (l ≡ blank_limit) ⊎ IsStarved l
        → IsStarved (configure n rps now later l)
    unfolding configure
    configure-IsStarved n rps now later l h old = record { slow = h; idle = ground arith }

    done-IsStarved : (now : ℕ) (l : RateLimit W) → IsStarved l → IsStarved (done_limit now l)
    unfolding done_limit
    done-IsStarved now l h = record { slow = h.slow; idle = ground arith }

    backoff-IsStarved : (now : ℕ) (l : RateLimit W) → IsStarved l → IsStarved (backoff_limit now l)
    unfolding backoff_limit
    backoff-IsStarved now l h = record { slow = h.slow; idle = ground arith }

module _ {K T W : Type 0} ⦃d : Double W⦄ ⦃t : Table K (RateLimit W) T⦄ (ieee : IsIeee W)
    (laws : IsTable K (RateLimit W) T) where
  -- If every rate that is ever set is below one request a second, then after any calls no limit has
  -- a counted request: no start was ever granted a token.
  pub run-IsStarved :
      (cs : List (Call K W)) → All (Allowed IsSlow) cs → Everywhere {T = T} IsStarved (run none cs)
  run-IsStarved cs slow =
      run-Everywhere laws IsSlow (configure-IsStarved ieee) (can_proceed-IsStarved ieee)
        (start-IsStarved ieee) (done-IsStarved ieee) (backoff-IsStarved ieee) none cs slow
        (record { at = λ k l e. cc })
