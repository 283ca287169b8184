-- ===== src/Loop.antt =====
-- The state of the event loop: `struct curl_event_loop_s` of
-- include/a-curl-library/impl/curl_event_priv.h, the request wrappers that it points to, and what
-- the code has done to the outside: a log of calls, the newest first.
use a_curl_library.Base.{ℕ, Bool, Option, List, ◌∷◌, ℤ, ◌==◌, if◌then◌else◌}
use a_curl_library.Request.{Pointer, Wrapper}

-- `struct curl_event_res_s`; its id is its key in the map, and the blocked requests stand from
-- `blocked_head` to `blocked_tail`.
pub record Node : Type 0 where
  pub payload : Option Pointer
  pub cleanup : Option Pointer
  pub refcnt : ℤ
  pub failed : Bool
  pub auto_release_owner : Bool
  pub blocked : List Pointer

-- `res_op_t`
pub data Op : Type 0 where
  register publish : ℕ → Option Pointer → Option Pointer → Op
  release : ℕ → Op

-- `curl_event_metrics_t`
pub record Metrics : Type 0 where
  pub total_requests : ℕ
  pub completed_requests : ℕ
  pub failed_requests : ℕ
  pub retried_requests : ℕ

-- Calls of user code and of the libraries.
pub data Event : Type 0 where
  -- `cleanup(payload)` of a resource
  cleaned : (cleanup payload : Pointer) → Event
  -- `on_failure(NULL, CURLE_ABORTED_BY_CALLBACK, 0, req)`
  aborted : (on_failure request : Pointer) → Event
  removed_handle cleaned_handle : (easy : Pointer) → Event
  sink_cleaned plugin_cleaned : (cleanup data_pointer : Pointer) → Event
  -- `aml_pool_destroy` of the request's pool, which holds the request too
  destroyed : (request : Pointer) → Event
  -- `curl_multi_wakeup`
  woken : Event

-- `T` is the map of resources, `Q` a map of requests ordered by `next_retry_at`.
pub record Loop (W T Q : Type 0) : Type 0 where
  pub requests : Pointer → Wrapper W
  pub enable_http3 : Bool
  pub max_concurrent_requests : ℕ
  pub keep_running : Bool
  pub queued_requests : Q
  pub inactive_requests : Q
  pub refresh_requests : Q
  pub rate_limited_requests : Q
  pub resources : T
  -- the stack of `res_inbox`, its head first
  pub res_inbox : List Op
  pub num_queued_requests : ℤ
  pub num_multi_requests : ℤ
  pub num_inactive_requests : ℤ
  pub num_refresh_requests : ℤ
  pub metrics : Metrics
  pub cancelled_requests : Option Pointer
  pub pending_requests : List Pointer
  pub injected_requests : List Pointer
  -- the global `g_next_id` of curl_resource.c
  pub next_id : ℕ
  pub log : List Event

module _ {W T Q : Type 0} where
  -- Write through the pointer `r`.
  abbrev pub write_request : Pointer → Wrapper W → Loop W T Q → Loop W T Q
  write_request r w s = record s { requests = λ p. if p == r then w else s.requests p }

  abbrev pub emit : Event → Loop W T Q → Loop W T Q
  emit e s = record s { log = e ∷ s.log }
