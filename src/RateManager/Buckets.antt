-- ===== src/RateManager/Buckets.antt =====
-- One token bucket: what `start_limit` and `can_proceed_limit` do on every branch, and what many
-- polls by a waiting request do to the others.
use a_curl_library.Base.{
  ℕ, ◌+◌, ◌-◌, ◌≤◌, ◌≡◌, ◌≢◌, refl, Bool, true, false, ◌⊎◌, List, [], ◌∷◌, arith, length,
}
use a_curl_library.External.Double.{Double}
use a_curl_library.RateManager.{
  RateLimit, refill, wait_ns, has_token, admit, probe, start_limit, can_proceed_limit,
}

module _ {W : Type 0} ⦃d : Double W⦄ where
  -- A start that goes ahead: from the refilled bucket `l` to `l'`, with answer `r`.
  pub record Started (high_priority : Bool) (l l' : RateLimit W) (r : ℕ) : Type 0 where
    pub answer : r ≡ 0
    pub token : d.ge l.tokens (d.of_nat 1) ≡ true
    pub turn : (high_priority ≡ true) ⊎ (l.high_priority_requests ≡ 0)
    pub spent : l'.tokens ≡ d.sub l.tokens (d.of_nat 1)
    pub counted : l'.current_requests ≡ l.current_requests + 1
    pub rate : l'.max_rps ≡ l.max_rps
    pub pending :
        ((high_priority ≡ true) × (l'.high_priority_requests ≡ l.high_priority_requests - 1))
        ⊎ ((high_priority ≡ false) × (l'.high_priority_requests ≡ l.high_priority_requests))

  -- A start that has to wait.
  pub record Delayed (high_priority : Bool) (l l' : RateLimit W) (r : ℕ) : Type 0 where
    pub answer : r ≡ wait_ns l
    pub same : l' ≡ l
    pub reason :
        (d.ge l.tokens (d.of_nat 1) ≡ false)
        ⊎ ((high_priority ≡ false) × (l.high_priority_requests ≢ 0))

  admit_outcome :
      (high_priority : Bool) (l : RateLimit W)
      → let (l', r) = admit high_priority l in
        Started high_priority l l' r ⊎ Delayed high_priority l l' r
  unfolding admit
  admit_outcome true l = ground arith
  admit_outcome false l = ground arith

  -- Every start either finds a whole token in the refilled bucket, takes it, counts one request and
  -- answers 0, where the request has high priority or none of high priority waits; or changes nothing
  -- but the refill and answers the wait, for want of a whole token or of its turn.
  pub start_outcome :
      (now : ℕ) (high_priority : Bool) (l : RateLimit W)
      → let (l', r) = start_limit now high_priority l in
        Started high_priority (refill now l) l' r ⊎ Delayed high_priority (refill now l) l' r
  unfolding start_limit
  start_outcome now high_priority l = admit_outcome high_priority (refill now l)

  pub refill-pending :
      (now : ℕ) (l : RateLimit W) → (refill now l).high_priority_requests ≡ l.high_priority_requests
  unfolding refill
  refill-pending now l = refl

  -- High-priority probes at the times `ts`, one after the other.
  unfoldable pub polls : List ℕ → RateLimit W → RateLimit W
  polls [] l = l
  polls (t ∷ ts) l = polls ts (can_proceed_limit t true l).0

  -- None of them finds a token.
  abbrev pub AllRefused : List ℕ → RateLimit W → Type 0
  AllRefused [] l = Unit {0}
  AllRefused (t ∷ ts) l =
      (has_token (refill t l) ≡ false) × AllRefused ts (can_proceed_limit t true l).0

  probe-pending :
      (l : RateLimit W)
      → has_token l ≡ false
      → (probe true l).0.high_priority_requests ≡ l.high_priority_requests + 1
  unfolding probe
  probe-pending l h = ground arith

  can_proceed-pending :
      (t : ℕ) (l : RateLimit W)
      → has_token (refill t l) ≡ false
      → (can_proceed_limit t true l).0.high_priority_requests ≡ l.high_priority_requests + 1
  unfolding can_proceed_limit
  can_proceed-pending t l h = ground (arith, probe-pending (refill t l), refill-pending t l)

  -- Each refused high-priority probe is counted as one more waiting request.
  pub polls-pending :
      (ts : List ℕ) (l : RateLimit W)
      → AllRefused ts l
      → (polls ts l).high_priority_requests ≡ l.high_priority_requests + length ts
  unfolding polls
  polls-pending [] l h = omega arith
  polls-pending (t ∷ ts) l h =
      omega
        (arith, polls-pending ts (can_proceed_limit t true l).0 h.1, can_proceed-pending t l h.0)

  start-pending :
      (now : ℕ) (l : RateLimit W)
      → l.high_priority_requests ≤ (start_limit now true l).0.high_priority_requests + 1
  start-pending now l = ground (arith, start_outcome now true l, refill-pending now l)

  -- After one request of high priority was refused twice or more, and then asks to start, the next
  -- call is a start of normal priority, at any time: it gets no token, is not counted, and the bucket
  -- only refills.
  pub polled_twice_blocks_normal :
      (ts : List ℕ) (now later : ℕ) (l : RateLimit W)
      → AllRefused ts l
      → 2 ≤ length ts
      → let l' = (start_limit now true (polls ts l)).0 in
        (start_limit later false l').0 ≡ refill later l'
  polled_twice_blocks_normal ts now later l h two =
      let l' = (start_limit now true (polls ts l)).0 in
      ground (
        arith,
        start_outcome later false l',
        refill-pending later l',
        start-pending now (polls ts l),
        polls-pending ts l,
      )
