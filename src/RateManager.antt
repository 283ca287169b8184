-- ===== src/RateManager.antt =====
-- src/rate_manager.c: token buckets by key. Each public function locks one mutex for its whole
-- body, so it is one step; the manager is `none` before `rate_manager_init`. Times are arguments,
-- the values that `macro_now` returns. Signed counters that only grow are numbers.
pub mod Buckets
pub mod Calls
pub mod Bounds
pub mod Starvation
pub mod Keys
mod Tests
use a_curl_library.Base.{
  ℕ, zero, suc, ◌+◌, ◌-◌, ◌*◌, Bool, true, false, ◌&&◌, ◌||◌, Option, none, some, List, [], ◌∷◌,
  ◌==◌, ltb, if◌then◌else◌, ℤ,
}
use a_curl_library.External.Double.{Double}
use a_curl_library.External.Table.{Table}

-- `rate_limit_t`; its key is its key in the map
pub record RateLimit (W : Type 0) : Type 0 where
  pub max_concurrent : ℤ
  pub max_rps : W
  pub current_requests : ℕ
  pub high_priority_requests : ℕ
  pub tokens : W
  pub last_refill : ℕ
  pub last_success : ℕ
  pub backoff_seconds : ℕ

module _ {W : Type 0} ⦃d : Double W⦄ where
  -- the zeroed node of `aml_calloc`
  abbrev pub blank_limit : RateLimit W
  blank_limit = record {
    max_concurrent = ℤ.pos 0;
    max_rps = d.of_nat 0;
    current_requests = 0;
    high_priority_requests = 0;
    tokens = d.of_nat 0;
    last_refill = 0;
    last_success = 0;
    backoff_seconds = 0;
  }

  pub configure : ℤ → W → ℕ → ℕ → RateLimit W → RateLimit W
  configure max_concurrent max_rps refill_now success_now l = record l {
    max_concurrent = max_concurrent;
    max_rps = max_rps;
    tokens = max_rps;
    last_refill = refill_now;
    last_success = success_now;
    backoff_seconds = 1;
  }

  pub refill : ℕ → RateLimit W → RateLimit W
  refill now l = record l {
    tokens = d.fmin l.max_rps (d.add l.tokens (d.mul (d.time_diff now l.last_refill) l.max_rps));
    last_refill = now;
  }

  -- (uint64_t)((1.0 - tokens) / max_rps * 1e9)
  pub wait_ns : RateLimit W → ℕ
  wait_ns l =
      d.trunc (d.mul (d.div (d.sub (d.of_nat 1) l.tokens) l.max_rps) (d.of_nat 1_000_000_000))

  abbrev pub has_token : RateLimit W → Bool
  has_token l = d.ge l.tokens (d.of_nat 1)

  -- `rate_manager_can_proceed` behind the refill
  pub probe : Bool → RateLimit W → RateLimit W × ℕ
  probe true l =
      if has_token l
      then (l, 0)
      else (record l { high_priority_requests = l.high_priority_requests + 1 }, wait_ns l)
  probe false l = if has_token l && (l.high_priority_requests == 0) then (l, 0) else (l, wait_ns l)

  pub can_proceed_limit : ℕ → Bool → RateLimit W → RateLimit W × ℕ
  unfolding probe refill
  can_proceed_limit now high_priority l = probe high_priority (refill now l)

  pub take_token : Bool → RateLimit W → RateLimit W
  take_token high_priority l = record l {
    tokens = d.sub l.tokens (d.of_nat 1);
    current_requests = l.current_requests + 1;
    high_priority_requests =
        if high_priority && ltb 0 l.high_priority_requests
        then l.high_priority_requests - 1
        else l.high_priority_requests;
  }

  -- `rate_manager_start_request` behind the refill; the two nested tests
  pub admit : Bool → RateLimit W → RateLimit W × ℕ
  unfolding take_token
  admit high_priority l =
      if high_priority || ((l.high_priority_requests == 0) && has_token l)
      then (if has_token l then (take_token high_priority l, 0) else (l, wait_ns l))
      else (l, wait_ns l)

  pub start_limit : ℕ → Bool → RateLimit W → RateLimit W × ℕ
  unfolding admit refill
  start_limit now high_priority l = admit high_priority (refill now l)

  abbrev pub finished : RateLimit W → ℕ
  finished l = if ltb 0 l.current_requests then l.current_requests - 1 else l.current_requests

  pub done_limit : ℕ → RateLimit W → RateLimit W
  done_limit now l = record l {
    current_requests = finished l;
    last_success = now;
    backoff_seconds = 1;
  }

  pub backoff_limit : ℕ → RateLimit W → RateLimit W
  backoff_limit now l = record l {
    current_requests = finished l;
    backoff_seconds =
        if d.lt (d.time_diff now l.last_success) (d.of_nat 2)
        then 1
        else d.trunc (d.fmin (d.of_nat (l.backoff_seconds * 2)) (d.of_nat 60));
  }

  abbrev pub or_blank : Option (RateLimit W) → RateLimit W
  or_blank none = blank_limit
  or_blank (some l) = l

-- `rate_manager_t`
pub record Manager (K W T : Type 0) : Type 0 where
  pub limits : T

module _ {K T W : Type 0} ⦃d : Double W⦄ ⦃t : Table K (RateLimit W) T⦄ where
  -- `rate_manager_init`: a second call does nothing
  pub init : Option (Manager K W T) → Option (Manager K W T)
  init (some m) = some m
  init none = some (record { limits = t.empty })

  set_in : K → ℤ → W → ℕ → ℕ → Option (Manager K W T) → Option (Manager K W T)
  unfolding configure
  set_in key max_concurrent max_rps refill_now success_now none = none
  set_in key max_concurrent max_rps refill_now success_now (some m) = some (record {
    limits =
        t.store key
          (configure max_concurrent max_rps refill_now success_now (or_blank (t.find key m.limits)))
          m.limits;
  })

  -- The limit is made on first use. The two times are the two calls of `macro_now`.
  pub set_limit : K → ℤ → W → ℕ → ℕ → Option (Manager K W T) → Option (Manager K W T)
  unfolding set_in init
  set_limit key max_concurrent max_rps refill_now success_now g =
      set_in key max_concurrent max_rps refill_now success_now (init g)

  -- A function that answers 0 for a missing manager or key, and else updates the limit.
  answer :
      K → (RateLimit W → RateLimit W × ℕ) → Manager K W T → Option (RateLimit W) → Manager K W T × ℕ
  answer key f m none = (m, 0)
  answer key f m (some l) = let (l', r) = f l in (record { limits = t.store key l' m.limits }, r)

  pub at_key :
      K → (RateLimit W → RateLimit W × ℕ) → Option (Manager K W T) → Option (Manager K W T) × ℕ
  unfolding answer
  at_key key f none = (none, 0)
  at_key key f (some m) = let (m', r) = answer key f m (t.find key m.limits) in (some m', r)

  unfoldable pub can_proceed : K → Bool → ℕ → Option (Manager K W T) → Option (Manager K W T) × ℕ
  unfolding at_key can_proceed_limit
  can_proceed key high_priority now = at_key key (can_proceed_limit now high_priority)

  unfoldable pub start_request : K → Bool → ℕ → Option (Manager K W T) → Option (Manager K W T) × ℕ
  unfolding at_key start_limit
  start_request key high_priority now = at_key key (start_limit now high_priority)

  unfoldable pub request_done : K → ℕ → Option (Manager K W T) → Option (Manager K W T)
  unfolding at_key done_limit
  request_done key now g = (at_key key (λ l. (done_limit now l, 0)) g).0

  unfoldable pub handle_429 : K → ℕ → Option (Manager K W T) → Option (Manager K W T) × ℕ
  unfolding at_key backoff_limit
  handle_429 key now = at_key key (λ l. let l' = backoff_limit now l in (l', l'.backoff_seconds))

  -- The loop of `rate_manager_destroy`, with the keys that it frees; `none` when the fuel is out.
  drain : ℕ → Manager K W T → Option (List K)
  drain zero m = none
  drain (suc fuel) m = elim (t.first m.limits) [
    | none ↦ some []
    | some k ↦ elim (drain fuel (record { limits = t.erase k m.limits })) [
      | none ↦ none
      | some ks ↦ some (k ∷ ks)
    ]
  ]

  -- `rate_manager_destroy`: the manager after it, and the keys freed
  pub destroy : Option (Manager K W T) → Option (Option (Manager K W T) × List K)
  unfolding drain
  destroy none = some (none, [])
  destroy (some m) = elim (drain (t.total (λ _. 1) m.limits + 1) m) [
    | none ↦ none
    | some ks ↦ some (none, ks)
  ]
