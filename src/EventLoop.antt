-- ===== src/EventLoop.antt =====
-- src/curl_event_loop.c and `curl_event_loop_request_start` of src/curl_event_request.c: how the loop
-- schedules requests. The functions run on `Sys`: the loop, the global rate manager, and what comes
-- from outside, the values of `macro_now` and the handles of `curl_easy_init`, in the order in which
-- they are read. The loop's mutex makes each critical section one step.
pub mod Start
pub mod Cancel
pub mod Pending
pub mod Move
pub mod Complete
pub mod Timer
pub mod Shutdown
pub mod Run
pub mod Frame
pub mod Outcome
pub mod Conserve
pub mod Tries
pub mod Moves
pub mod Beside
pub mod Limited
pub mod Put
pub mod Away
pub mod Settling
pub mod Answers
pub mod Admission
pub mod Retaining
pub mod Scheduling
pub mod Cuts
pub mod Cancelled
pub mod Rounds
pub mod Cancelling
pub mod Asking
pub mod Readiness
pub mod Destroying
pub mod Cleared
pub mod Destroyed
mod Scenes
mod Tests
use a_curl_library.Base.{ℕ, ◌+◌, Bool, Option, ℤ}
use a_curl_library.External.Double.{Double}
use a_curl_library.External.Table.{Table}
use a_curl_library.External.Queue.{Queue}
use a_curl_library.RateManager.{RateLimit, Manager}
use a_curl_library.Request.{Text, Pointer, Request, Wrapper}
use a_curl_library.Loop.{Loop, write_request}

-- `M` is the map of rate limits by key.
pub record Sys (W T Q M : Type 0) : Type 0 where
  pub loop : Loop W T Q
  pub manager : Option (Manager Text W M)
  pub clock : ℕ → ℕ
  pub handles : ℕ → Option Pointer

-- What the user's callbacks do with a request and answer, by the callback that is called; what
-- `ajson_stringify` gives; and what `macro_now_add_seconds` gives by the clock that it reads.
pub record User (W : Type 0) : Type 0 where
  pub prepare : Pointer → Request W → Request W × Bool
  pub complete : Pointer → Request W → Request W × ℤ
  pub failure : Pointer → (http_code : ℕ) → Request W → Request W × ℤ
  pub retry : Pointer → Request W → Request W × Bool
  pub stringify : Pointer → Option Text
  pub add_seconds : (now seconds : ℕ) → ℕ

module _ {W T Q M : Type 0} where
  -- one call of `macro_now`
  abbrev pub read_clock : Sys W T Q M → Sys W T Q M × ℕ
  read_clock s = (record s { clock = λ n. s.clock (n + 1) }, s.clock 0)

  -- one call of `curl_easy_init`
  abbrev pub next_handle : Sys W T Q M → Sys W T Q M × Option Pointer
  next_handle s = (record s { handles = λ n. s.handles (n + 1) }, s.handles 0)

  abbrev pub wrapper : Pointer → Sys W T Q M → Wrapper W
  wrapper r s = s.loop.requests r

  abbrev pub on_loop : (Loop W T Q → Loop W T Q) → Sys W T Q M → Sys W T Q M
  on_loop f s = record s { loop = f s.loop }

  abbrev pub set_wrapper : Pointer → Wrapper W → Sys W T Q M → Sys W T Q M
  set_wrapper r w = on_loop (write_request r w)

  abbrev pub set_request : Pointer → Request W → Sys W T Q M → Sys W T Q M
  set_request r request s = set_wrapper r (record (wrapper r s) { request = request }) s

  abbrev pub set_next_retry : Pointer → ℕ → Sys W T Q M → Sys W T Q M
  set_next_retry r at s = set_request r (record (wrapper r s).request { next_retry_at = at }) s

module _ {W T Q M : Type 0} ⦃q : Queue Q⦄ where
  -- `curl_event_request_insert`: by the request's time
  abbrev pub insert_by_time : Pointer → Q → Sys W T Q M → Q
  insert_by_time r m s = q.insert (wrapper r s).next_retry_at r m

  abbrev pub insert_limited : Pointer → Sys W T Q M → Sys W T Q M
  insert_limited r s =
      on_loop (λ l. record l { rate_limited_requests = insert_by_time r l.rate_limited_requests s })
        s
