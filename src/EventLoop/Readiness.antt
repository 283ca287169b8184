-- ===== src/EventLoop/Readiness.antt =====
-- When a request may start, and how long the loop waits for the next one.
use a_curl_library.Base.{
  All, Option, ℕ, ◌-◌, ◌/◌, ◌^◌, ◌<◌, ◌≤◌, ◌≡◌, refl, ap, sym, ◌∙◌, pos, min, wrap_int-small,
  if◌then◌else◌, ◌↔◌, true, false, ltb, none, some, arith, Bool-cases, inl, inr,
}
use a_curl_library.External.Double.{Double}
use a_curl_library.External.Table.{Table}
use a_curl_library.External.Queue.{Queue}
use a_curl_library.RateManager.{RateLimit}
use a_curl_library.Request.{Text, Pointer}
use a_curl_library.Loop.{Node, Loop}
use a_curl_library.Resource.Blocking.{all_ready_list}
use a_curl_library.EventLoop.{Sys, wrapper, read_clock}
use a_curl_library.EventLoop.Start.{at_limit, rate_wait, ready_by_time, request_ready}
use a_curl_library.EventLoop.Asking.{
  IsSettled, All-IsSettled, settled-All, readings, IsAllowed, wait-IsAllowed,
}
use a_curl_library.EventLoop.Timer.{sooner, wait_until, next_time, next_timer_expiry}
use a_curl_library.EventLoop.Outcome.{loop-rate_wait, loop-request_ready}

module _ {W T Q M : Type 0} ⦃d : Double W⦄ ⦃t : Table ℕ Node T⦄
    ⦃m : Table Text (RateLimit W) M⦄ where
  -- The loop has room for one more transfer; the rate manager asks for no wait, where the request has a
  -- key; each dependency is published or failed; and the request's time has come, by the reading of the
  -- clock behind that of the rate manager.
  pub record IsReady (r : Pointer) (transfers : ℕ) (s : Sys W T Q M) : Type 0 where
    pub room : transfers < s.loop.max_concurrent_requests
    pub no_wait : IsAllowed (wrapper r s).rate_limit r s
    pub settled : All (IsSettled s.loop) (wrapper r s).deps
    pub due : (wrapper r s).next_retry_at ≤ s.clock (readings (wrapper r s).rate_limit)

  ready_by_time_iff :
      (r : Pointer) (s : Sys W T Q M)
      → ((ready_by_time r s).1 ≡ true) ↔ (
          ((rate_wait r s).1 ≡ 0)
          × (all_ready_list (wrapper r s).deps s.loop ≡ true)
          × ((wrapper r s).next_retry_at ≤ (rate_wait r s).0.clock 0))
  unfolding ready_by_time
  ready_by_time_iff r s =
      let same = loop-rate_wait r s in
      let deps = ap (λ l. all_ready_list (l.requests r).deps l) same in
      let time = ap (λ l. (l.requests r).next_retry_at) same in ground (arith, deps, time)

  -- Where the counter of the transfers is not negative, `request_ready` answers true exactly when that
  -- counter is below the limit of concurrent requests, the rate manager asks for no wait on the key of
  -- the request, if it has one, every dependency has a node that is published or failed, and the
  -- request's time has come by the clock that is read then; and asking changes nothing of the loop.
  pub request_ready_iff :
      (r : Pointer) (transfers : ℕ) (s : Sys W T Q M)
      → s.loop.num_queued_requests ≡ pos transfers
      → (((request_ready r s).1 ≡ true) ↔ IsReady r transfers s)
        × ((request_ready r s).0.loop ≡ s.loop)
  unfolding request_ready
  request_ready_iff r transfers s count =
      let (to, from) = ready_by_time_iff r s in
      let ((allowed, no_wait), clock) = wait-IsAllowed r s in
      let deps = (wrapper r s).deps in
      let same = ap (λ x. at_limit x s.loop.max_concurrent_requests) count in
      (
        elim (Bool-cases (at_limit s.loop.num_queued_requests s.loop.max_concurrent_requests)) [
          | inl full ↦ (
            λ e. cc (rw (request_ready, full) at e),
            λ h. absurd (ground (arith, sym same ∙ full, h.room)),
          )
          | inr room ↦
              rw (request_ready, room)
                (
                  λ e.
                      let (waits, published, due) = to e in
                      record {
                        room = ground (arith, sym same ∙ room);
                        no_wait = allowed waits;
                        settled = All-IsSettled deps s.loop published;
                        due = omega (arith, due, clock);
                      },
                  λ h. from (
                    no_wait h.no_wait,
                    settled-All deps s.loop h.settled,
                    omega (arith, h.due, clock),
                  ),
                )
        ],
        loop-request_ready r s,
      )

-- the time that is left from `now` to `at`, in milliseconds and at most `max_value`
abbrev pub time_left : (max_value at now : ℕ) → ℕ
time_left max_value at now = min ((at - now) / 1_000_000) max_value

wait_until-time_left :
    (max_value next now : ℕ) → wait_until max_value next now ≡ time_left max_value next now
unfolding wait_until
wait_until-time_left max_value next now = elim (Bool-cases (ltb next now)) [
  | inl e ↦ rw (wait_until, e) (ground arith)
  | inr e ↦ rw (wait_until, e) refl
]

sooner-min : (a b : ℕ) → a < 2 ^ 63 → b < 2 ^ 63 → sooner a b ≡ min a b
sooner-min a b x y = rw (wrap_int-small 63 a x, wrap_int-small 63 b y) (ground arith)

module _ {W T Q M : Type 0} ⦃d : Double W⦄ ⦃t : Table ℕ Node T⦄ ⦃m : Table Text (RateLimit W) M⦄
    ⦃q : Queue Q⦄ where
  abbrev first_inactive : Sys W T Q M → Option Pointer
  first_inactive s = q.front s.loop.inactive_requests

  abbrev first_refresh : Sys W T Q M → Option Pointer
  first_refresh s = q.front s.loop.refresh_requests

  -- The wait of the loop, by what stands first in the two maps; the times of requests are below
  -- 2 ^ 63.
  pub record IsTimely (max_value : ℕ) (s : Sys W T Q M) (ms : ℕ) : Type 0 where
    pub none_waits : first_inactive s ≡ none → first_refresh s ≡ none → ms ≡ max_value
    pub one_inactive :
        (r : Pointer)
        → first_inactive s ≡ some r
        → first_refresh s ≡ none
        → ms ≡ time_left max_value (wrapper r s).next_retry_at (s.clock 0)
    pub one_refresh :
        (f : Pointer)
        → first_inactive s ≡ none
        → first_refresh s ≡ some f
        → ms ≡ time_left max_value (wrapper f s).next_retry_at (s.clock 0)
    pub both_ready :
        (r f : Pointer)
        → first_inactive s ≡ some r
        → first_refresh s ≡ some f
        → (request_ready r s).1 ≡ true
        → (wrapper r s).next_retry_at < 2 ^ 63
        → (wrapper f s).next_retry_at < 2 ^ 63
        → ms
          ≡ time_left max_value
              (min (wrapper r s).next_retry_at (wrapper f s).next_retry_at)
              ((request_ready r s).0.clock 0)
    pub not_ready :
        (r f : Pointer)
        → first_inactive s ≡ some r
        → first_refresh s ≡ some f
        → (request_ready r s).1 ≡ false
        → ms ≡ time_left max_value (wrapper f s).next_retry_at ((request_ready r s).0.clock 0)

  expiry-some :
      (max_value at : ℕ) (s s₁ : Sys W T Q M)
      → next_time s ≡ (s₁, some at)
      → (next_timer_expiry max_value s).1 ≡ time_left max_value at (s₁.clock 0)
  unfolding next_timer_expiry
  expiry-some max_value at s s₁ e =
      let wait : Sys W T Q M × Option ℕ → Sys W T Q M × ℕ = λ x. elim x.1 [
        | none ↦ (x.0, max_value)
        | some next ↦ ((read_clock x.0).0, wait_until max_value next (x.0.clock 0))
      ] in
      ap (λ x. (wait x).1) e ∙ wait_until-time_left max_value at (s₁.clock 0)

  expiry-both :
      (max_value : ℕ) (r f : Pointer) (s : Sys W T Q M)
      → first_inactive s ≡ some r
      → first_refresh s ≡ some f
      → let (s₁, ready) = request_ready r s in
        (next_timer_expiry max_value s).1
        ≡ time_left max_value
            (if ready
              then sooner (wrapper r s).next_retry_at (wrapper f s).next_retry_at
              else (wrapper f s).next_retry_at)
            (s₁.clock 0)
  unfolding next_time
  expiry-both max_value r f s x y =
      let (s₁, ready) = request_ready r s in
      let at = λ (l : Loop W T Q) (p : Pointer). (l.requests p).next_retry_at in
      let target = λ (l : Loop W T Q). if ready then sooner (at l r) (at l f) else at l f in
      expiry-some max_value (target s₁.loop) s s₁ (rw (next_time, x, y) refl)
      ∙ ap (λ l. time_left max_value (target l) (s₁.clock 0)) (loop-request_ready r s)

  -- With no request that waits to start or to be refreshed, the loop waits `max_value`. With a first
  -- one in only one of the two maps, it waits for that one's time. With one in each, it waits for the
  -- sooner of the two where the inactive one is ready, and else for the one to be refreshed, also
  -- where the other's time comes first; the two times are compared as signed numbers, which is right
  -- below 2 ^ 63. Waits are cut at `max_value`, and 0 for a time that has passed.
  pub next_timer-IsTimely :
      (max_value : ℕ) (s : Sys W T Q M) → IsTimely max_value s (next_timer_expiry max_value s).1
  unfolding next_timer_expiry next_time
  next_timer-IsTimely max_value s = record {
    none_waits = λ x y. rw (next_timer_expiry, next_time, x, y) refl;
    one_inactive =
        λ r x y. expiry-some max_value (wrapper r s).next_retry_at s s (rw (next_time, x, y) refl);
    one_refresh =
        λ f x y. expiry-some max_value (wrapper f s).next_retry_at s s (rw (next_time, x, y) refl);
    both_ready = λ r f x y ready small small'.
        expiry-both max_value r f s x y
        ∙ rw ready (
            ap (λ at. time_left max_value at ((request_ready r s).0.clock 0))
              (sooner-min (wrapper r s).next_retry_at (wrapper f s).next_retry_at small small'));
    not_ready = λ r f x y waits. expiry-both max_value r f s x y ∙ rw waits refl;
  }
