-- ===== src/EventLoop/Complete.antt =====
-- `process_completed_requests`. A result `none` is a call through a callback that is NULL.
use a_curl_library.Base.{
  ℕ, zero, suc, ◌+◌, Bool, ◌&&◌, Option, none, some, List, [], ◌∷◌, ℤ, pos, negsuc, ◌-ℤ◌, ◌==◌,
  if◌then◌else◌,
}
use a_curl_library.External.Double.{Double}
use a_curl_library.External.Table.{Table}
use a_curl_library.External.Queue.{Queue}
use a_curl_library.RateManager.{RateLimit}
use a_curl_library.RateManager
use a_curl_library.Request.{Text, Pointer, Request}
use a_curl_library.Loop.{Node, Metrics}
use a_curl_library.Resource.Lifecycle.{request_destroy, request_cleanup}
use a_curl_library.EventLoop.{
  Sys, User, read_clock, wrapper, on_loop, set_request, set_next_retry, insert_limited,
}
use a_curl_library.EventLoop.Start.{enqueue_request}

-- `CURLMsg`, with what `curl_easy_getinfo` says of its handle
pub record Message : Type 0 where
  pub request : Pointer
  pub is_done : Bool
  -- CURLE_OK
  pub is_ok : Bool
  pub http_code : ℕ

abbrev pub is_success : Message → Bool
is_success msg = msg.is_ok && (msg.http_code == 200)

abbrev pub count_completed : Bool → Metrics → Metrics
count_completed success m =
    if success then record m { completed_requests = m.completed_requests + 1 } else m

abbrev pub count_retried : Metrics → Metrics
count_retried m = record m { retried_requests = m.retried_requests + 1 }

module _ {W T Q M : Type 0} ⦃d : Double W⦄ ⦃t : Table ℕ Node T⦄ ⦃m : Table Text (RateLimit W) M⦄
    ⦃q : Queue Q⦄ (u : User W) where
  -- the request is taken out of the queue
  unfoldable pub take_completed : Pointer → Sys W T Q M → Sys W T Q M
  take_completed r = on_loop λ l. record l {
    queued_requests = q.remove r l.queued_requests;
    num_queued_requests = l.num_queued_requests -ℤ pos 1;
  }

  abbrev pub keep_answer : Pointer → Request W × ℤ → Sys W T Q M → Sys W T Q M × ℤ
  keep_answer r (request, answer) s = (set_request r request s, answer)

  -- the user's callback for the result, and its answer
  unfoldable pub tell_user : Message → Sys W T Q M → Option (Sys W T Q M × ℤ)
  tell_user msg s =
      let r = msg.request in
      let request = (wrapper r s).request in
      if is_success msg
      then elim request.on_complete [
        | none ↦ none
        | some cb ↦ some (keep_answer r (u.complete cb request) s)
      ]
      else some (elim request.on_failure [
        | none ↦ (s, negsuc 0)
        | some cb ↦ keep_answer r (u.failure cb msg.http_code request) s
      ])

  -- cleaned up and put back to wait
  unfoldable pub run_again : Pointer → Sys W T Q M → Sys W T Q M
  unfolding enqueue_request
  run_again r s = enqueue_request r (on_loop (request_cleanup r) s)

  -- the request is finished: it is refreshed or destroyed
  unfoldable pub finish_request : Bool → Pointer → Sys W T Q M → Sys W T Q M
  unfolding run_again
  finish_request success r s =
      let s₁ = on_loop (λ l. record l { metrics = count_completed success l.metrics }) s in
      if (wrapper r s₁).should_refresh
      then run_again r
          (set_request r (record (wrapper r s₁).request { current_retries = pos 0 }) s₁)
      else on_loop (request_destroy r) s₁

  abbrev pub retry_or_finish : Bool → Pointer → Request W × Bool → Sys W T Q M → Sys W T Q M
  retry_or_finish success r (request, again) s =
      let s₁ = set_request r request s in
      if again
      then on_loop (λ l. record l { metrics = count_retried l.metrics }) (run_again r s₁)
      else finish_request success r s₁

  -- by the callback's answer
  unfoldable pub settle : Bool → Pointer → (retry_in : ℤ) → Sys W T Q M → Option (Sys W T Q M)
  unfolding finish_request run_again
  settle success r (pos zero) s = some (finish_request success r s)
  settle success r (pos (suc n)) s =
      let (s₁, now) = read_clock s in
      some (run_again r (set_next_retry r (u.add_seconds now (suc n)) s₁))
  settle success r (negsuc n) s = elim (wrapper r s).on_retry [
    | none ↦ none
    | some cb ↦ some (retry_or_finish success r (u.retry cb (wrapper r s).request) s)
  ]

  -- 429: the rate manager backs off, and the request waits that long among the rate limited
  unfoldable pub back_off : Pointer → Text → Sys W T Q M → Sys W T Q M
  unfolding RateManager.handle_429
  back_off r key s =
      let (s₁, now) = read_clock s in
      let (manager, seconds) = RateManager.handle_429 key now s₁.manager in
      let (s₂, later) = read_clock (record s₁ { manager = manager }) in
      insert_limited r (set_next_retry r (u.add_seconds later seconds) s₂)

  -- `rate_manager_request_done`
  unfoldable pub rate_done : Text → Sys W T Q M → Sys W T Q M
  unfolding RateManager.request_done
  rate_done key s =
      let (s₁, now) = read_clock s in
      record s₁ { manager = RateManager.request_done key now s₁.manager }

  unfoldable pub settle_rate : Message → (retry_in : ℤ) → Sys W T Q M → Option (Sys W T Q M)
  unfolding back_off rate_done settle
  settle_rate msg retry_in s =
      let r = msg.request in
      elim (wrapper r s).rate_limit [
        | none ↦ settle (is_success msg) r retry_in s
        | some key ↦
            if msg.http_code == 429
            then some (back_off r key s)
            else settle (is_success msg) r retry_in (rate_done key s)
      ]

  unfoldable pub complete_one : Message → Sys W T Q M → Option (Sys W T Q M)
  unfolding take_completed tell_user settle_rate
  complete_one msg s =
      if msg.is_done
      then elim (tell_user msg (take_completed msg.request s)) [
        | none ↦ none
        | some (s', retry_in) ↦ settle_rate msg retry_in s'
      ]
      else some s

  unfoldable pub complete_all : List Message → Sys W T Q M → Option (Sys W T Q M)
  unfolding complete_one
  complete_all [] s = some s
  complete_all (msg ∷ msgs) s = elim (complete_one msg s) [
    | none ↦ none
    | some s' ↦ complete_all msgs s'
  ]

  -- one injected request
  unfoldable pub complete_injected : Pointer → Sys W T Q M → Sys W T Q M
  complete_injected r s =
      let s₁ : Sys W T Q M = elim (wrapper r s).on_complete [
        | none ↦ s
        | some cb ↦ (keep_answer r (u.complete cb (wrapper r s).request) s).0
      ] in
      on_loop (request_destroy r) s₁

  unfoldable pub all_injected : List Pointer → Sys W T Q M → Sys W T Q M
  unfolding complete_injected
  all_injected [] s = s
  all_injected (r ∷ rs) s = all_injected rs (complete_injected r s)

  -- `process_completed_requests`, with the messages that `curl_multi_info_read` gives
  unfoldable pub process_completed : List Message → Sys W T Q M → Option (Sys W T Q M)
  unfolding complete_all all_injected
  process_completed msgs s = elim (complete_all msgs s) [
    | none ↦ none
    | some s₁ ↦ some (
        all_injected s₁.loop.injected_requests
          (on_loop (λ l. record l { injected_requests = [] }) s₁))
  ]
