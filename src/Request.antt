-- ===== src/Request.antt =====
-- The request of include/a-curl-library/curl_event_request.h and its private wrapper in
-- include/a-curl-library/impl/curl_event_priv.h. A text is the list of its bytes. Callbacks, payloads
-- and user data are the numbers of what they point to, `none` for NULL. The list links
-- `next_pending` are the lists of the loop and of the resource nodes.
pub mod Literals
pub mod Headers
pub mod Replace
pub mod Config
pub mod Build
pub mod Length
pub mod Download
pub mod Reads
pub mod Limit
pub mod Retry
pub mod Backoff
pub mod Submit
pub mod Submission
pub mod Sinks
pub mod SinkOrder
pub mod Setup
pub mod Quiet
pub mod Options
mod Tests
mod HandleTests
use a_curl_library.Base.{ℕ, Bool, Option, List, ℤ}

abbrev pub Text : Type 0
Text = List ℕ

abbrev pub Pointer : Type 0
Pointer = ℕ

-- `curl_event_request_s`; `pool` tells whether the pool is there
pub record Request (W : Type 0) : Type 0 where
  pub pool : Bool
  pub url : Option Text
  pub method : Option Text
  pub post_data : Option Text
  pub headers : List Text
  -- `dep_head`, the ids from the head on
  pub deps : List ℕ
  pub rate_limit : Option Text
  pub rate_limit_high_priority : Bool
  pub connect_timeout : ℤ
  pub transfer_timeout : ℤ
  pub low_speed_limit : ℤ
  pub low_speed_time : ℤ
  pub max_retries : ℤ
  pub backoff_factor : W
  pub min_backoff_delay_ms : ℕ
  pub max_backoff_delay_ms : ℕ
  pub full_jitter : Bool
  pub on_complete : Option Pointer
  pub on_failure : Option Pointer
  pub write_cb : Option Pointer
  pub on_retry : Option Pointer
  pub on_prepare : Option Pointer
  pub sink_data : Option Pointer
  pub sink_data_cleanup : Option Pointer
  pub plugin_data : Option Pointer
  pub plugin_data_cleanup : Option Pointer
  pub should_refresh : Bool
  pub sink_initialized : Bool
  pub max_download_size : ℤ
  pub json_root : Option Pointer
  pub json_set_ct : Bool
  pub current_retries : ℤ
  pub next_retry_at : ℕ
  pub start_time : ℕ
  pub request_start_time : ℕ
  pub priority : ℤ
  pub http3_override : ℤ
  pub refresh_interval_ms : ℕ
  pub refresh_backoff_on_errors : Bool

-- `curl_event_loop_request_s`; `multi_handle` tells whether it is set
pub record Wrapper (W : Type 0) : Type 0 where
  pub request : Request W
  pub open request use *
  pub multi_handle : Bool
  pub easy_handle : Option Pointer
  pub next_cancelled : Option Pointer
  pub content_length : ℤ
  pub content_length_found : Bool
  pub is_injected : Bool
  pub is_cancelled : Bool
  pub is_pending : Bool
  pub deps_retained : Bool
  pub bytes_downloaded : ℤ
