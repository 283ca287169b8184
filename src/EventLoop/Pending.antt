-- ===== src/EventLoop/Pending.antt =====
-- `process_cancelled_and_pending_requests`. A result `fault` is a read of a request that has been
-- destroyed: its wrapper stood in its pool.
use a_curl_library.Base.{
  ℕ, zero, suc, Bool, true, false, ◌&&◌, Option, none, some, List, [], ◌∷◌, pos, ◌-ℤ◌,
  if◌then◌else◌, not,
}
use a_curl_library.External.Double.{Double}
use a_curl_library.External.Table.{Table}
use a_curl_library.External.Queue.{Queue}
use a_curl_library.RateManager.{RateLimit}
use a_curl_library.Request.{Text, Pointer}
use a_curl_library.Loop.{Node}
use a_curl_library.Resource.Refs.{is_empty, retain_request_deps}
use a_curl_library.Resource.Lifecycle.{request_destroy}
use a_curl_library.Resource.Teardown.{Torn, done, fault, out_of_fuel}
use a_curl_library.EventLoop.{Sys, User, wrapper, on_loop, set_wrapper}
use a_curl_library.EventLoop.Start.{
  enqueue_request, waiting_on_dependencies, request_ready, request_start,
}

module _ {W T Q M : Type 0} ⦃d : Double W⦄ ⦃t : Table ℕ Node T⦄ ⦃m : Table Text (RateLimit W) M⦄
    ⦃q : Queue Q⦄ (u : User W) where
  -- the map that a cancelled request is taken from, by its flags
  unfoldable pub unlink_cancelled : Pointer → Sys W T Q M → Sys W T Q M
  unlink_cancelled r s =
      let w = wrapper r s in
      if w.multi_handle
      then on_loop
          (λ l. record l {
            queued_requests = q.remove r l.queued_requests;
            num_queued_requests = l.num_queued_requests -ℤ pos 1;
          })
          s
      else (if w.should_refresh
          then on_loop
              (λ l. record l {
                refresh_requests = q.remove r l.refresh_requests;
                num_refresh_requests = l.num_refresh_requests -ℤ pos 1;
              })
              s
          else on_loop
              (λ l. record l {
                inactive_requests = q.remove r l.inactive_requests;
                num_inactive_requests = l.num_inactive_requests -ℤ pos 1;
              })
              s)

  unfoldable pub process_cancelled : ℕ → Option Pointer → Sys W T Q M → Torn (Sys W T Q M)
  unfolding unlink_cancelled
  process_cancelled zero next s = out_of_fuel
  process_cancelled (suc fuel) none s = done s
  process_cancelled (suc fuel) (some r) s = elim (wrapper r s).pool [
    | false ↦ fault
    | true ↦
        process_cancelled fuel (wrapper r s).next_cancelled
          (on_loop (request_destroy r) (unlink_cancelled r s))
  ]

  -- the dependencies are retained the first time
  unfoldable pub retain_deps : Pointer → Sys W T Q M → Sys W T Q M
  retain_deps r s =
      let w = wrapper r s in
      if not w.deps_retained && not (is_empty w.deps)
      then set_wrapper r (record w { deps_retained = true })
          (on_loop (retain_request_deps w.deps) s)
      else s

  -- blocked, started or put to wait
  unfoldable pub admit_retained : Pointer → Sys W T Q M → Sys W T Q M
  unfolding waiting_on_dependencies request_ready request_start enqueue_request
  admit_retained r s =
      let (s₁, blocked) = waiting_on_dependencies r s in
      let (s₂, ready) = request_ready r s₁ in
      if blocked then s₁ else (if ready then (request_start u r s₂).0 else enqueue_request r s₂)

  -- a pending request that was not cancelled
  unfoldable pub admit_pending : Pointer → Sys W T Q M → Sys W T Q M
  unfolding retain_deps admit_retained
  admit_pending r s = admit_retained r (retain_deps r s)

  -- a pending request, by `is_cancelled`
  unfoldable pub end_or_admit : Bool → Pointer → Sys W T Q M → Sys W T Q M
  unfolding admit_pending
  end_or_admit true r s = on_loop (request_destroy r) s
  end_or_admit false r s = admit_pending r s

  -- one round of the loop over the pending requests
  unfoldable pub process_one : Pointer → Sys W T Q M → Sys W T Q M
  unfolding end_or_admit
  process_one r s =
      let s₁ = set_wrapper r (record (wrapper r s) { is_pending = false }) s in
      end_or_admit (wrapper r s₁).is_cancelled r s₁

  unfoldable pub process_pending : List Pointer → Sys W T Q M → Sys W T Q M
  unfolding process_one
  process_pending [] s = s
  process_pending (r ∷ rs) s = process_pending rs (process_one r s)

  abbrev pub then_pending : List Pointer → Torn (Sys W T Q M) → Torn (Sys W T Q M)
  then_pending rs (done s) = done (process_pending rs s)
  then_pending rs fault = fault
  then_pending rs out_of_fuel = out_of_fuel

  unfoldable pub process_cancelled_and_pending : ℕ → Sys W T Q M → Torn (Sys W T Q M)
  unfolding process_cancelled process_pending
  process_cancelled_and_pending fuel s = then_pending s.loop.pending_requests (
      process_cancelled fuel s.loop.cancelled_requests
        (on_loop (λ l. record l { cancelled_requests = none; pending_requests = [] }) s))
