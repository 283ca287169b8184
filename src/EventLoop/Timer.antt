-- ===== src/EventLoop/Timer.antt =====
-- `calculate_next_timer_expiry`: how long the loop may wait, in milliseconds.
use a_curl_library.Base.{
  ℕ, ◌-◌, ◌/◌, Option, none, some, pos, ltb_ℤ, wrap_int, ltb, min, if◌then◌else◌,
}
use a_curl_library.External.Double.{Double}
use a_curl_library.External.Table.{Table}
use a_curl_library.External.Queue.{Queue}
use a_curl_library.RateManager.{RateLimit}
use a_curl_library.Request.{Text}
use a_curl_library.Loop.{Node}
use a_curl_library.EventLoop.{Sys, read_clock, wrapper}
use a_curl_library.EventLoop.Start.{request_ready}

-- the sooner of two times, as the signed longs that they are read as
abbrev pub sooner : ℕ → ℕ → ℕ
sooner a b = if ltb_ℤ (wrap_int 63 (pos a)) (wrap_int 63 (pos b)) then a else b

-- the time that is left, cut at `max_value`
unfoldable pub wait_until : (max_value next_time current_time : ℕ) → ℕ
wait_until max_value next_time current_time =
    if ltb next_time current_time then 0 else min ((next_time - current_time) / 1_000_000) max_value

module _ {W T Q M : Type 0} ⦃d : Double W⦄ ⦃t : Table ℕ Node T⦄ ⦃m : Table Text (RateLimit W) M⦄
    ⦃q : Queue Q⦄ where
  -- the time that the loop waits for, if any
  unfoldable pub next_time : Sys W T Q M → Sys W T Q M × Option ℕ
  unfolding request_ready
  next_time s = elim (q.front s.loop.inactive_requests) [
    | none ↦ elim (q.front s.loop.refresh_requests) [
      | none ↦ (s, none)
      | some f ↦ (s, some (wrapper f s).next_retry_at)
    ]
    | some r ↦ elim (q.front s.loop.refresh_requests) [
      | none ↦ (s, some (wrapper r s).next_retry_at)
      | some f ↦
          let (s₁, ready) = request_ready r s in
          (
            s₁,
            some (
                if ready
                then sooner (wrapper r s₁).next_retry_at (wrapper f s₁).next_retry_at
                else (wrapper f s₁).next_retry_at),
          )
    ]
  ]

  unfoldable pub next_timer_expiry : (max_value : ℕ) → Sys W T Q M → Sys W T Q M × ℕ
  unfolding next_time wait_until
  next_timer_expiry max_value s =
      let (s₁, at) = next_time s in
      let (s₂, now) = read_clock s₁ in
      elim at [ none ↦ (s₁, max_value) | some next ↦ (s₂, wait_until max_value next now) ]
