-- ===== src/EventLoop/Start.antt =====
-- Whether a request may start, and its start.
use a_curl_library.Base.{
  ℕ, ◌+◌, ◌-◌, ◌%◌, ◌^◌, Bool, true, false, none, some, ℤ, pos, negsuc, ◌+ℤ◌, ◌==◌, leb, ltb,
  if◌then◌else◌,
}
use a_curl_library.External.Double.{Double}
use a_curl_library.External.Table.{Table}
use a_curl_library.External.Queue.{Queue}
use a_curl_library.RateManager.{RateLimit}
use a_curl_library.RateManager
use a_curl_library.Request.{Text, Pointer}
use a_curl_library.Request.Setup.{setup_curl_handle}
use a_curl_library.Loop.{Node}
use a_curl_library.Resource.Lifecycle.{request_destroy}
use a_curl_library.Resource.Blocking.{check_and_block_list, all_ready_list}
use a_curl_library.EventLoop.{
  Sys, User, read_clock, next_handle, wrapper, on_loop, set_wrapper, set_request, set_next_retry,
  insert_by_time, insert_limited,
}

-- `num_queued_requests >= max_concurrent_requests`, an int against a size_t
abbrev pub at_limit : ℤ → ℕ → Bool
at_limit (pos n) max_concurrent = leb max_concurrent n
at_limit (negsuc n) max_concurrent = leb max_concurrent (2 ^ 64 - 1 - n)

module _ {W T Q M : Type 0} ⦃d : Double W⦄ ⦃m : Table Text (RateLimit W) M⦄ where
  -- `rate_manager_can_proceed` on the request's key
  unfoldable pub ask_rate : Text → Bool → Sys W T Q M → Sys W T Q M × ℕ
  unfolding RateManager.can_proceed
  ask_rate key high_priority s =
      let (s₁, now) = read_clock s in
      let (manager, next) = RateManager.can_proceed key high_priority now s₁.manager in
      (record s₁ { manager = manager }, next)

  -- `rate_manager_start_request` on the request's key
  unfoldable pub take_rate : Text → Bool → Sys W T Q M → Sys W T Q M × ℕ
  unfolding RateManager.start_request
  take_rate key high_priority s =
      let (s₁, now) = read_clock s in
      let (manager, next) = RateManager.start_request key high_priority now s₁.manager in
      (record s₁ { manager = manager }, next)

  -- the answer of the rate manager for a request, 0 where it has no key
  abbrev pub rate_wait : Pointer → Sys W T Q M → Sys W T Q M × ℕ
  rate_wait r s = elim (wrapper r s).rate_limit [
    | none ↦ (s, 0)
    | some key ↦ ask_rate key (wrapper r s).rate_limit_high_priority s
  ]

module _ {W T Q M : Type 0} ⦃d : Double W⦄ ⦃m : Table Text (RateLimit W) M⦄ ⦃q : Queue Q⦄ where
  -- `request_is_rate_limited` on the map `root`: the map behind it, and the answer
  unfoldable pub request_is_rate_limited : Pointer → Q → Sys W T Q M → Sys W T Q M × Q × Bool
  unfolding ask_rate
  request_is_rate_limited r root s =
      let (s₁, next) = rate_wait r s in
      let (s₂, now) = read_clock s₁ in
      if next == 0
      then (s₁, root, false)
      else (insert_limited r (set_next_retry r ((now + next) % 2 ^ 64) s₂), q.remove r root, true)

  -- `enqueue_request`
  unfoldable pub enqueue_request : Pointer → Sys W T Q M → Sys W T Q M
  enqueue_request r s =
      if (wrapper r s).should_refresh
      then on_loop
          (λ l. record l {
            refresh_requests = insert_by_time r l.refresh_requests s;
            num_refresh_requests = l.num_refresh_requests +ℤ pos 1;
          })
          s
      else on_loop
          (λ l. record l {
            inactive_requests = insert_by_time r l.inactive_requests s;
            num_inactive_requests = l.num_inactive_requests +ℤ pos 1;
          })
          s

module _ {W T Q M : Type 0} ⦃d : Double W⦄ ⦃t : Table ℕ Node T⦄
    ⦃m : Table Text (RateLimit W) M⦄ where
  -- `request_waiting_on_dependencies`
  unfoldable pub waiting_on_dependencies : Pointer → Sys W T Q M → Sys W T Q M × Bool
  waiting_on_dependencies r s =
      let (l, blocked) = check_and_block_list r (wrapper r s).deps s.loop in
      (record s { loop = l }, blocked)

  -- `request_ready` behind the test of the concurrency limit
  unfoldable pub ready_by_time : Pointer → Sys W T Q M → Sys W T Q M × Bool
  unfolding ask_rate
  ready_by_time r s =
      let (s₁, next) = rate_wait r s in
      let (s₂, now) = read_clock s₁ in
      if ltb 0 next
      then (s₁, false)
      else (if all_ready_list (wrapper r s₁).deps s₁.loop
          then (s₂, leb (wrapper r s₁).next_retry_at now)
          else (s₁, false))

  -- `request_ready`
  unfoldable pub request_ready : Pointer → Sys W T Q M → Sys W T Q M × Bool
  unfolding ready_by_time
  request_ready r s =
      if at_limit s.loop.num_queued_requests s.loop.max_concurrent_requests
      then (s, false)
      else ready_by_time r s

module _ {W T Q M : Type 0} ⦃d : Double W⦄ ⦃t : Table ℕ Node T⦄ ⦃m : Table Text (RateLimit W) M⦄
    ⦃q : Queue Q⦄ (u : User W) where
  -- the handle that was set up is put into the multi handle, and the request into the queue
  unfoldable pub add_transfer : Pointer → Sys W T Q M → Sys W T Q M
  add_transfer r s =
      let (s₁, now) = read_clock s in
      let s₂ = set_request r (record (wrapper r s₁).request { request_start_time = now }) s₁ in
      let s₃ = set_wrapper r (record (wrapper r s₂) { multi_handle = true }) s₂ in
      on_loop
        (λ l. record l {
          num_multi_requests = l.num_multi_requests +ℤ pos 1;
          queued_requests = insert_by_time r l.queued_requests s₃;
          num_queued_requests = l.num_queued_requests +ℤ pos 1;
        })
        s₃

  -- the start behind the rate limit
  unfoldable pub start_transfer : Pointer → Sys W T Q M → Sys W T Q M × Bool
  unfolding add_transfer
  start_transfer r s =
      let (s₁, easy) = next_handle s in
      let (w, options, ok) =
        setup_curl_handle u.prepare easy u.stringify s₁.loop.enable_http3 (wrapper r s₁) in
      let s₂ = set_wrapper r w s₁ in
      if ok then (add_transfer r s₂, true) else (on_loop (request_destroy r) s₂, false)

  -- `curl_event_loop_request_start`
  unfoldable pub request_start : Pointer → Sys W T Q M → Sys W T Q M × Bool
  unfolding start_transfer take_rate
  request_start r s = elim (wrapper r s).rate_limit [
    | none ↦ start_transfer r s
    | some key ↦
        let (s₁, next) = take_rate key (wrapper r s).rate_limit_high_priority s in
        if next == 0
        then start_transfer r s₁
        else (insert_limited r (set_next_retry r next s₁), false)
  ]
