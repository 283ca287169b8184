-- ===== src/Request/Build.antt =====
-- The builders of src/curl_event_request.c.
use a_curl_library.Base.{true, false, Option, none, some, [], pos, negsuc}
use a_curl_library.External.Double.{Double}
use a_curl_library.Request.{Text, Pointer, Request, Wrapper}
use a_curl_library.Request.Literals.{
  text_post, text_get, text_content_type, text_application_json, text_empty_object,
}
use a_curl_library.Request.Headers.{set_header}
use a_curl_library.Request.Config.{
  Defaults, sink_defaults, set_url, set_method, set_body, set_on_write, set_on_complete,
}

-- The body of `build_post_json`: `serialize` is `g_ajson_serialize` on the JSON, `none` where it is
-- not set, and answers `none` for NULL.
abbrev json_text : Option (Option Text) → Text
json_text (some (some text)) = text
json_text _ = text_empty_object

abbrev given : {A W : Type 0} → Option A → (A → Request W → Request W) → Request W → Request W
given none f req = req
given (some a) f req = f a req

module _ {W : Type 0} where
  -- the ends of the builders: `if (write_cb) ...; if (on_complete) ...`
  abbrev set_callbacks : Option Pointer → Option Pointer → Request W → Request W
  set_callbacks write_cb on_complete req =
      given on_complete (λ cb. set_on_complete (some cb))
        (given write_cb (λ cb. set_on_write (some cb)) req)

module _ {W : Type 0} ⦃d : Double W⦄ where
  -- `curl_event_request_init` where the pool and the wrapper could be allocated
  unfoldable pub request_init : Defaults → Wrapper W
  unfolding sink_defaults
  request_init f = record {
    request = sink_defaults f (record {
      pool = true;
      url = none;
      method = none;
      post_data = none;
      headers = [];
      deps = [];
      rate_limit = none;
      rate_limit_high_priority = false;
      connect_timeout = pos 0;
      transfer_timeout = pos 0;
      low_speed_limit = pos 0;
      low_speed_time = pos 0;
      max_retries = pos 0;
      backoff_factor = d.of_nat 2;
      min_backoff_delay_ms = 0;
      max_backoff_delay_ms = 0;
      full_jitter = true;
      on_complete = none;
      on_failure = none;
      write_cb = none;
      on_retry = none;
      on_prepare = none;
      sink_data = none;
      sink_data_cleanup = none;
      plugin_data = none;
      plugin_data_cleanup = none;
      should_refresh = false;
      sink_initialized = false;
      max_download_size = pos 0;
      json_root = none;
      json_set_ct = true;
      current_retries = pos 0;
      next_retry_at = 0;
      start_time = 0;
      request_start_time = 0;
      priority = pos 0;
      http3_override = negsuc 0;
      refresh_interval_ms = 0;
      refresh_backoff_on_errors = true;
    });
    multi_handle = false;
    easy_handle = none;
    next_cancelled = none;
    content_length = negsuc 0;
    content_length_found = false;
    is_injected = false;
    is_cancelled = false;
    is_pending = false;
    deps_retained = false;
    bytes_downloaded = pos 0;
  }

  -- `curl_event_request_build_get`
  unfoldable pub build_get : Defaults → Text → Option Pointer → Option Pointer → Request W
  unfolding request_init
  build_get f url write_cb on_complete =
      set_callbacks write_cb on_complete
        (set_method text_get (set_url url (request_init f).request))

  -- `curl_event_request_build_post`
  unfoldable pub build_post :
      Defaults → Text → Option Text → Option Text → Option Pointer → Option Pointer → Request W
  unfolding request_init
  build_post f url body content_type write_cb on_complete = set_callbacks write_cb on_complete (
      given content_type (set_header text_content_type)
        (given body set_body (set_method text_post (set_url url (request_init f).request))))

  -- `curl_event_request_build_post_json`
  unfoldable pub build_post_json :
      Defaults → Text → Option (Option Text) → Option Pointer → Option Pointer → Request W
  unfolding request_init
  build_post_json f url serialize write_cb on_complete = set_callbacks write_cb on_complete (
      set_body (json_text serialize) (
        set_header text_content_type text_application_json
          (set_method text_post (set_url url (request_init f).request))))
