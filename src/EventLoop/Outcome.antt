-- ===== src/EventLoop/Outcome.antt =====
-- What the start of a request does to the maps of the loop.
use a_curl_library.Base.{
  ℕ, ◌≡◌, ◌≢◌, ==_iff, refl, Bool, true, false, ◌==◌, Option, none, some, pos, ◌+ℤ◌, arith,
  if◌then◌else◌, Bool-cases, Option-cases, inl, inr,
}
use a_curl_library.External.Double.{Double}
use a_curl_library.External.Table.{Table}
use a_curl_library.External.Queue.{Queue}
use a_curl_library.RateManager.{RateLimit}
use a_curl_library.Request.{Text, Pointer, Request, Wrapper}
use a_curl_library.Request.Setup.{setup_curl_handle, configure_handle, run_prepare}
use a_curl_library.Request.Config.{json_commit}
use a_curl_library.Request.Headers.{set_header}
use a_curl_library.Loop.{Node, Loop, write_request}
use a_curl_library.EventLoop.{Sys, User, next_handle, wrapper, on_loop}
use a_curl_library.EventLoop.Start.{
  ask_rate, take_rate, rate_wait, request_ready, ready_by_time, add_transfer, start_transfer,
  request_start,
}
use a_curl_library.EventLoop.Frame.{Queues, queues, IsEnd-request_destroy}

-- The user's callbacks leave the request's pool alone.
pub record KeepsPool {W : Type 0} (u : User W) : Type 0 where
  pub prepared : (cb : Pointer) (req : Request W) → (u.prepare cb req).0.pool ≡ req.pool
  pub completed : (cb : Pointer) (req : Request W) → (u.complete cb req).0.pool ≡ req.pool
  pub failed :
      (cb : Pointer) (code : ℕ) (req : Request W) → (u.failure cb code req).0.pool ≡ req.pool
  pub retried : (cb : Pointer) (req : Request W) → (u.retry cb req).0.pool ≡ req.pool

module _ {Q : Type 0} ⦃q : Queue Q⦄ where
  abbrev pub put_queued : ℕ → Pointer → Queues Q → Queues Q
  put_queued k r m = record m { queued = q.insert k r m.queued; num_queued = m.num_queued +ℤ pos 1 }

  abbrev pub put_limited : ℕ → Pointer → Queues Q → Queues Q
  put_limited k r m = record m { limited = q.insert k r m.limited }

module _ {W : Type 0} where
  pool-run_prepare :
      (u : User W) (on_prepare : Option Pointer) (req : Request W)
      → KeepsPool u
      → (run_prepare u.prepare on_prepare req).0.pool ≡ req.pool
  pool-run_prepare u none req kept = refl
  pool-run_prepare u (some cb) req kept = kept.prepared cb req

  pool-json_commit :
      (stringify : Pointer → Option Text) (req : Request W)
      → (json_commit stringify req).pool ≡ req.pool
  unfolding json_commit set_header
  pool-json_commit stringify req = ground arith

  pool-setup_curl_handle :
      (u : User W) (easy : Option Pointer) (enable_http3 : Bool) (w : Wrapper W)
      → KeepsPool u
      → (setup_curl_handle u.prepare easy u.stringify enable_http3 w).0.pool ≡ w.pool
  unfolding setup_curl_handle configure_handle
  pool-setup_curl_handle u easy enable_http3 w kept =
      let req = (run_prepare u.prepare w.on_prepare w.request).0 in
      ground
        (arith, pool-run_prepare u w.on_prepare w.request kept, pool-json_commit u.stringify req)

module _ {W T Q M : Type 0} ⦃d : Double W⦄ ⦃m : Table Text (RateLimit W) M⦄ where
  pub loop-ask_rate :
      (key : Text) (high_priority : Bool) (s : Sys W T Q M)
      → (ask_rate key high_priority s).0.loop ≡ s.loop
  unfolding ask_rate
  loop-ask_rate key high_priority s = refl

  pub loop-rate_wait : (r : Pointer) (s : Sys W T Q M) → (rate_wait r s).0.loop ≡ s.loop
  loop-rate_wait r s = elim (Option-cases (wrapper r s).rate_limit) [
    | inl e ↦ rw (e, rate_wait) refl
    | inr (key, e) ↦ rw (e, rate_wait) (loop-ask_rate key (wrapper r s).rate_limit_high_priority s)
  ]

module _ {W T Q M : Type 0} ⦃d : Double W⦄ ⦃t : Table ℕ Node T⦄
    ⦃m : Table Text (RateLimit W) M⦄ where
  loop-ready_by_time : (r : Pointer) (s : Sys W T Q M) → (ready_by_time r s).0.loop ≡ s.loop
  unfolding ready_by_time
  loop-ready_by_time r s = ground (arith, loop-rate_wait r s)

  pub loop-request_ready : (r : Pointer) (s : Sys W T Q M) → (request_ready r s).0.loop ≡ s.loop
  unfolding request_ready
  loop-request_ready r s = ground (arith, loop-ready_by_time r s)

module _ {W T Q : Type 0} ⦃q : Queue Q⦄ where
  abbrev pub Untouched : User W → Loop W T Q → Loop W T Q → Type 0
  Untouched u l l' = KeepsPool u → (p : Pointer) → (l'.requests p).pool ≡ (l.requests p).pool

  abbrev pub Buried : User W → Pointer → Loop W T Q → Loop W T Q → Type 0
  Buried u r l l' =
      KeepsPool u
      → (p : Pointer) → (l'.requests p).pool ≡ (if p == r then false else (l.requests p).pool)

  -- How a start ends, by its answer: among the transfers, among the requests that are rate limited,
  -- or destroyed.
  pub data Outcome (u : User W) (r : Pointer) (l l' : Loop W T Q) : Bool → Type 0 where
    queued :
        (k : ℕ) → queues l' ≡ put_queued k r (queues l) → Untouched u l l' → Outcome u r l l' true
    limited :
        (k : ℕ) → queues l' ≡ put_limited k r (queues l) → Untouched u l l' → Outcome u r l l' false
    ended : queues l' ≡ queues l → Buried u r l l' → Outcome u r l l' false

module _ {W T Q M : Type 0} ⦃d : Double W⦄ ⦃t : Table ℕ Node T⦄ ⦃m : Table Text (RateLimit W) M⦄
    ⦃q : Queue Q⦄ (u : User W) where
  Outcome-start_transfer :
      (r : Pointer) (s : Sys W T Q M)
      → let s' = start_transfer u r s in Outcome u r s.loop s'.0.loop s'.1
  unfolding start_transfer add_transfer
  Outcome-start_transfer r s =
      let easy = (next_handle s).1 in
      let set_up = setup_curl_handle u.prepare easy u.stringify s.loop.enable_http3 (wrapper r s) in
      let kept = pool-setup_curl_handle u easy s.loop.enable_http3 (wrapper r s) in
      elim (Bool-cases set_up.2) [
        | inl e ↦ rw e (queued _ refl (λ h p. ground (arith, kept h)))
        | inr e ↦
            let end = IsEnd-request_destroy r (on_loop (write_request r set_up.0) s).loop in
            rw e (ended end.maps (λ h p. ground (arith, end.pools p)))
      ]

  -- The start of a request puts it into one map or destroys it, whatever the rate manager, the user
  -- and libcurl answer.
  pub Outcome-request_start :
      (r : Pointer) (s : Sys W T Q M)
      → let s' = request_start u r s in Outcome u r s.loop s'.0.loop s'.1
  unfolding request_start take_rate
  Outcome-request_start r s = elim (Option-cases (wrapper r s).rate_limit) [
    | inl e ↦ rw (e, request_start) (Outcome-start_transfer r s)
    | inr (key, e) ↦
        let s₁ = take_rate key (wrapper r s).rate_limit_high_priority s in
        elim (Bool-cases (s₁.1 == 0)) [
          | inl x ↦ rw (e, request_start, x) (Outcome-start_transfer r s₁.0)
          | inr x ↦ rw (e, request_start, x) (limited _ refl (λ h p. ground arith))
        ]
  ]

module _ {W T Q : Type 0} ⦃q : Queue Q⦄ where
  -- Beside the requests' maps and `r` itself nothing has changed: no other request, no resource and
  -- no list.
  pub record Alone (r : Pointer) (l l' : Loop W T Q) : Type 0 where
    pub others : (p : Pointer) → p ≢ r → l'.requests p ≡ l.requests p
    pub resources : l'.resources ≡ l.resources
    pub pending : l'.pending_requests ≡ l.pending_requests
    pub cancelled : l'.cancelled_requests ≡ l.cancelled_requests

  -- What the start of `r` does to the loop, by its answer: `r` is put among the transfers and counted
  -- twice, or among the requests that are rate limited, or its pool is freed.
  pub data Started (r : Pointer) (l l' : Loop W T Q) : Bool → Type 0 where
    transferred :
        (k : ℕ)
        → queues l' ≡ put_queued k r (queues l)
        → l'.num_multi_requests ≡ l.num_multi_requests +ℤ pos 1
        → (l'.requests r).multi_handle ≡ true
        → Alone r l l'
        → (l'.requests r).pool ≡ (l.requests r).pool
        → Started r l l' true
    held_back :
        (k : ℕ)
        → queues l' ≡ put_limited k r (queues l)
        → l'.num_multi_requests ≡ l.num_multi_requests
        → Alone r l l'
        → (l'.requests r).pool ≡ (l.requests r).pool
        → Started r l l' false
    given_up :
        queues l' ≡ queues l
        → ((p : Pointer) → (l'.requests p).pool ≡ (if p == r then false else (l.requests p).pool))
        → Started r l l' false

module _ {W T Q M : Type 0} ⦃d : Double W⦄ ⦃t : Table ℕ Node T⦄ ⦃m : Table Text (RateLimit W) M⦄
    ⦃q : Queue Q⦄ where
  Started-start_transfer :
      (u : User W) (r : Pointer) (s : Sys W T Q M)
      → KeepsPool u
      → let s' = start_transfer u r s in Started r s.loop s'.0.loop s'.1
  unfolding start_transfer add_transfer
  Started-start_transfer u r s kept =
      let easy = (next_handle s).1 in
      let set_up = setup_curl_handle u.prepare easy u.stringify s.loop.enable_http3 (wrapper r s) in
      let pool = pool-setup_curl_handle u easy s.loop.enable_http3 (wrapper r s) kept in
      elim (Bool-cases set_up.2) [
        | inl e ↦ rw e (
            transferred _ refl refl (rw ((==_iff r r).1 refl) refl)
              (record {
                others = λ p ne. ground (arith, ne);
                resources = refl;
                pending = refl;
                cancelled = refl;
              })
              (rw ((==_iff r r).1 refl) pool))
        | inr e ↦
            let end = IsEnd-request_destroy r (on_loop (write_request r set_up.0) s).loop in
            rw e (given_up end.maps (λ p. ground (arith, end.pools p)))
      ]

  -- The start of a request, whatever the rate manager, the user's `on_prepare`, which leaves the
  -- request's pool alone, and libcurl answer. Either it answers true: the request is put among the
  -- transfers, both counters of those go up by one, and the request is marked as a transfer. Or it
  -- answers false, and the request is put among the rate-limited ones and no counter changes; in both
  -- cases no other request, no resource and neither the pending nor the cancelled list changes. Or it
  -- answers false, the request is destroyed and no other one is, and the maps of requests with their
  -- counters are as they were.
  pub request_start-Started :
      (u : User W) (r : Pointer) (s : Sys W T Q M)
      → KeepsPool u
      → let s' = request_start u r s in Started r s.loop s'.0.loop s'.1
  unfolding request_start take_rate
  request_start-Started u r s kept = elim (Option-cases (wrapper r s).rate_limit) [
    | inl e ↦ rw (e, request_start) (Started-start_transfer u r s kept)
    | inr (key, e) ↦
        let s₁ = take_rate key (wrapper r s).rate_limit_high_priority s in
        elim (Bool-cases (s₁.1 == 0)) [
          | inl x ↦ rw (e, request_start, x) (Started-start_transfer u r s₁.0 kept)
          | inr x ↦
              rw (e, request_start, x)
                (held_back _ refl refl
                  (record {
                    others = λ p ne. ground (arith, ne);
                    resources = refl;
                    pending = refl;
                    cancelled = refl;
                  })
                  (rw ((==_iff r r).1 refl) refl))
        ]
  ]
