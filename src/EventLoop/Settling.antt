-- ===== src/EventLoop/Settling.antt =====
-- Where `process_completed_requests` puts a request, by the user's answer.
use a_curl_library.Base.{
  ℕ, zero, suc, ◌≡◌, refl, ap, ◌∙◌, Bool, true, false, ◌==◌, Option, none, some, ℤ, pos, negsuc,
  arith, if◌then◌else◌, Bool-cases, Option-cases, inl, inr,
}
use a_curl_library.External.Double.{Double}
use a_curl_library.External.Table.{Table}
use a_curl_library.External.Queue.{Queue}
use a_curl_library.RateManager.{RateLimit}
use a_curl_library.Request.{Text, Pointer, Request}
use a_curl_library.Loop.{Node, Loop}
use a_curl_library.Resource.Lifecycle.{request_destroy, request_cleanup}
use a_curl_library.EventLoop.{Sys, User, read_clock, wrapper, on_loop, set_request, set_next_retry}
use a_curl_library.EventLoop.Complete.{
  Message, is_success, count_completed, count_retried, tell_user, run_again, finish_request,
  retry_or_finish, settle, back_off, rate_done, settle_rate,
}
use a_curl_library.EventLoop.Frame.{queues, IsAlike-request_cleanup, IsEnd-request_destroy}
use a_curl_library.EventLoop.Outcome.{KeepsPool, Untouched}
use a_curl_library.EventLoop.Away.{
  Away, waits_limited, gone, Away-after, Away-then, Away-enqueue_request,
}

-- The callbacks for a result leave `on_retry` as it is.
pub record KeepsRetry {W : Type 0} (u : User W) : Type 0 where
  pub completed : (cb : Pointer) (req : Request W) → (u.complete cb req).0.on_retry ≡ req.on_retry
  pub failed :
      (cb : Pointer) (code : ℕ) (req : Request W)
      → (u.failure cb code req).0.on_retry ≡ req.on_retry

module _ {W T Q M : Type 0} ⦃d : Double W⦄ ⦃t : Table ℕ Node T⦄ ⦃m : Table Text (RateLimit W) M⦄
    ⦃q : Queue Q⦄ (u : User W) where
  Away-run_again : (r : Pointer) (s : Sys W T Q M) → Away u r s.loop (run_again u r s).loop
  unfolding run_again
  Away-run_again r s =
      let s' = on_loop (request_cleanup r) s in
      let h = IsAlike-request_cleanup r s.loop in
      Away-after u r s.loop s'.loop _ h.maps (λ k. h.pools) (Away-enqueue_request u r s')

  -- a write of the request that leaves its pool
  Away-rewritten :
      (r : Pointer) (req : Request W) (s : Sys W T Q M) (l : Loop W T Q)
      → (KeepsPool u → req.pool ≡ (wrapper r s).pool)
      → Away u r (set_request r req s).loop l
      → Away u r s.loop l
  Away-rewritten r req s l e h =
      Away-after u r s.loop (set_request r req s).loop l refl (λ k p. ground (arith, e k)) h

  Away-counted_retry :
      (r : Pointer) (s : Sys W T Q M)
      → Away u r s.loop
          (on_loop (λ l. record l { metrics = count_retried l.metrics }) (run_again u r s)).loop
  Away-counted_retry r s =
      Away-then u r s.loop (run_again u r s).loop _ refl refl (Away-run_again r s)

  Away-destroyed :
      (r : Pointer) (s : Sys W T Q M) → Away u r s.loop (on_loop (request_destroy r) s).loop
  Away-destroyed r s = let h = IsEnd-request_destroy r s.loop in gone h.maps (λ k. h.pools)

  Away-finish_request :
      (success : Bool) (r : Pointer) (s : Sys W T Q M)
      → Away u r s.loop (finish_request u success r s).loop
  unfolding finish_request
  Away-finish_request success r s =
      let s₁ = on_loop (λ l. record l { metrics = count_completed success l.metrics }) s in
      Away-after u r s.loop s₁.loop _ refl (λ k p. refl)
        (elim (Bool-cases (wrapper r s).should_refresh) [
          | inl e ↦ rw e (Away-rewritten r _ s₁ _ (λ k. refl) (Away-run_again r _))
          | inr e ↦ rw e (Away-destroyed r s₁)
        ])

  Away-retry_or_finish :
      (success : Bool) (r : Pointer) (req : Request W) (again : Bool) (s : Sys W T Q M)
      → (KeepsPool u → req.pool ≡ (wrapper r s).pool)
      → Away u r s.loop (retry_or_finish u success r (req, again) s).loop
  Away-retry_or_finish success r req true s e =
      Away-rewritten r req s _ e (Away-counted_retry r (set_request r req s))
  Away-retry_or_finish success r req false s e =
      Away-rewritten r req s _ e (Away-finish_request success r (set_request r req s))

  -- The request is put into one map or destroyed, where the user has a callback that is called.
  Away-settle :
      (success : Bool) (r : Pointer) (retry_in : ℤ) (g : Pointer) (s : Sys W T Q M)
      → (wrapper r s).on_retry ≡ some g
      → (s' : Sys W T Q M) × (settle u success r retry_in s ≡ some s') × Away u r s.loop s'.loop
  unfolding settle
  Away-settle success r (pos zero) g s e =
      (finish_request u success r s, refl, Away-finish_request success r s)
  Away-settle success r (pos (suc n)) g s e =
      let (s₁, now) = read_clock s in
      (
        run_again u r (set_next_retry r (u.add_seconds now (suc n)) s₁),
        refl,
        Away-rewritten r _ s₁ _ (λ k. refl) (Away-run_again r _),
      )
  Away-settle success r (negsuc n) g s e =
      let (req, again) = u.retry g (wrapper r s).request in
      (
        retry_or_finish u success r (req, again) s,
        ap
            (λ o. elim o as (λ _. Option (Sys W T Q M)) [
              | none ↦ none
              | some cb ↦ some (retry_or_finish u success r (u.retry cb (wrapper r s).request) s)
            ])
            e,
        Away-retry_or_finish success r req again s (λ k. k.retried g (wrapper r s).request),
      )

  Away-back_off :
      (r : Pointer) (key : Text) (s : Sys W T Q M) → Away u r s.loop (back_off u r key s).loop
  unfolding back_off
  Away-back_off r key s = waits_limited _ refl (λ h p. ground arith)

  loop-rate_done : (key : Text) (s : Sys W T Q M) → (rate_done u key s).loop ≡ s.loop
  unfolding rate_done
  loop-rate_done key s = refl

  -- `settle_rate`, where the request has a key
  settle_rate-keyed :
      (msg : Message) (retry_in : ℤ) (key : Text) (s : Sys W T Q M)
      → (wrapper msg.request s).rate_limit ≡ some key
      → settle_rate u msg retry_in s ≡ (
          if msg.http_code == 429
          then some (back_off u msg.request key s)
          else settle u (is_success msg) msg.request retry_in (rate_done u key s))
  unfolding settle_rate
  settle_rate-keyed msg retry_in key s x =
      ap
        (λ o. elim o as (λ _. Option (Sys W T Q M)) [
          | none ↦ settle u (is_success msg) msg.request retry_in s
          | some k ↦
              if msg.http_code == 429
              then some (back_off u msg.request k s)
              else settle u (is_success msg) msg.request retry_in (rate_done u k s)
        ])
        x

  pub Away-settle_rate :
      (msg : Message) (retry_in : ℤ) (g : Pointer) (s : Sys W T Q M)
      → (wrapper msg.request s).on_retry ≡ some g
      → (s' : Sys W T Q M) × (settle_rate u msg retry_in s ≡ some s')
        × Away u msg.request s.loop s'.loop
  unfolding settle_rate rate_done
  Away-settle_rate msg retry_in g s e =
      let r = msg.request in
      elim (Option-cases (wrapper r s).rate_limit) [
        | inl x ↦
            let (s', same, h) = Away-settle (is_success msg) r retry_in g s e in
            (s', rw (settle_rate, x) same, h)
        | inr (key, x) ↦
            let keyed = settle_rate-keyed msg retry_in key s x in
            elim (Bool-cases (msg.http_code == 429)) [
              | inl y ↦ (back_off u r key s, keyed ∙ rw y refl, Away-back_off r key s)
              | inr y ↦
                  let (s', same, h) =
                    Away-settle (is_success msg) r retry_in g (rate_done u key s) e in
                  (s', keyed ∙ rw y same, h)
            ]
      ]

  -- the user's callback is there, and has answered
  pub record Told (r : Pointer) (s s' : Sys W T Q M) : Type 0 where
    pub maps : queues s'.loop ≡ queues s.loop
    pub pools : Untouched u s.loop s'.loop
    pub on_retry : (wrapper r s').on_retry ≡ (wrapper r s).on_retry

  pub told :
      (msg : Message) (f : Pointer) (s : Sys W T Q M)
      → KeepsRetry u
      → (wrapper msg.request s).on_complete ≡ some f
      → (s' : Sys W T Q M) × (retry_in : ℤ) × (tell_user u msg s ≡ some (s', retry_in))
        × Told msg.request s s'
  unfolding tell_user
  told msg f s keeps e =
      let r = msg.request in
      let req = (wrapper r s).request in
      elim (Bool-cases (is_success msg)) [
        | inl x ↦
            let (req', answer) = u.complete f req in
            (
              set_request r req' s,
              answer,
              rw (tell_user, x, e) refl,
              record {
                maps = refl;
                pools = λ h p. ground (arith, h.completed f req);
                on_retry = ground (arith, keeps.completed f req);
              },
            )
        | inr x ↦ elim (Option-cases req.on_failure) [
          | inl y ↦ (
            s,
            negsuc 0,
            rw (tell_user, x, y) refl,
            record { maps = refl; pools = λ h p. refl; on_retry = refl },
          )
          | inr (cb, y) ↦
              let (req', answer) = u.failure cb msg.http_code req in
              (
                set_request r req' s,
                answer,
                rw (tell_user, x, y) refl,
                record {
                  maps = refl;
                  pools = λ h p. ground (arith, h.failed cb msg.http_code req);
                  on_retry = ground (arith, keeps.failed cb msg.http_code req);
                },
              )
        ]
      ]
