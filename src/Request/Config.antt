-- ===== src/Request/Config.antt =====
-- The setters of src/curl_event_request.c. A text that a setter takes is its copy in
-- the request's pool; the formatted variants (urlf, bodyf, headerf, json_bodyf) take the text that
-- `aml_pool_strdupvf` made and are the setters below. A callback is what it points to.
use a_curl_library.Base.{
  ℕ, Bool, true, Option, none, some, List, [], ◌∷◌, ℤ, pos, ◌==◌, if◌then◌else◌, not,
}
use a_curl_library.Request.{Text, Pointer, Request}
use a_curl_library.Request.Literals.{text_post, text_content_type, text_application_json}
use a_curl_library.Request.Headers.{set_header}

-- Where the static functions of the file are.
pub record Defaults : Type 0 where
  pub on_write : Pointer
  pub on_complete : Pointer
  pub on_failure : Pointer
  pub sink_destroy : Pointer
  pub calculate_retry : Pointer

module _ {W : Type 0} where
  -- `curl_sink_defaults`
  unfoldable pub sink_defaults : Defaults → Request W → Request W
  sink_defaults f req = record req {
    write_cb = some f.on_write;
    on_complete = some f.on_complete;
    on_failure = some f.on_failure;
    sink_data_cleanup = some f.sink_destroy;
    sink_data = none;
  }

  abbrev pub set_url : Text → Request W → Request W
  set_url url req = record req { url = some url }

  abbrev pub set_method : Text → Request W → Request W
  set_method method req = record req { method = some method }

  abbrev pub set_body : Text → Request W → Request W
  set_body body req = record req { post_data = some body }

  -- `if (!req->method) req->method = text`
  abbrev pub default_method : Text → Request W → Request W
  default_method text req = elim req.method [ none ↦ set_method text req | some m ↦ req ]

  -- `curl_event_request_json_body`
  unfoldable pub json_body : Text → Request W → Request W
  json_body json req =
      default_method text_post
        (set_body json (set_header text_content_type text_application_json req))

  -- `curl_event_request_depend`: in front of the list; 0 is no id
  unfoldable pub depend : ℕ → Request W → Request W
  depend id req = if id == 0 then req else record req { deps = id ∷ req.deps }

  -- `curl_event_request_depend_many`, of the first `n` ids
  unfoldable pub depend_many : List ℕ → Request W → Request W
  unfolding depend
  depend_many [] req = req
  depend_many (id ∷ ids) req = depend_many ids (depend id req)

  abbrev pub set_rate_limit : Text → Bool → Request W → Request W
  set_rate_limit key high_priority req = record req {
    rate_limit = some key;
    rate_limit_high_priority = high_priority;
  }

  abbrev pub set_connect_timeout : ℤ → Request W → Request W
  set_connect_timeout secs req = record req { connect_timeout = secs }

  abbrev pub set_transfer_timeout : ℤ → Request W → Request W
  set_transfer_timeout secs req = record req { transfer_timeout = secs }

  abbrev pub set_low_speed : ℤ → ℤ → Request W → Request W
  set_low_speed bytes_per_sec time_secs req = record req {
    low_speed_limit = bytes_per_sec;
    low_speed_time = time_secs;
  }

  abbrev pub set_max_retries : ℤ → Request W → Request W
  set_max_retries max_retries req = record req { max_retries = max_retries }

  abbrev pub set_backoff_factor : W → Request W → Request W
  set_backoff_factor factor req = record req { backoff_factor = factor }

  -- `if (!req->on_retry) req->on_retry = default_calculate_retry_enhanced`
  abbrev pub default_on_retry : Defaults → Request W → Request W
  default_on_retry f req = elim req.on_retry [
    | none ↦ record req { on_retry = some f.calculate_retry }
    | some cb ↦ req
  ]

  -- `curl_event_request_enable_retries`
  unfoldable pub enable_retries : Defaults → ℤ → W → ℕ → ℕ → Bool → Request W → Request W
  enable_retries f max_retries backoff_factor min_delay_ms max_delay_ms full_jitter req =
      default_on_retry f (record req {
        max_retries = max_retries;
        backoff_factor = backoff_factor;
        min_backoff_delay_ms = min_delay_ms;
        max_backoff_delay_ms = max_delay_ms;
        full_jitter = full_jitter;
      })

  -- `curl_event_request_enable_refresh`
  unfoldable pub enable_refresh : ℕ → Bool → Request W → Request W
  enable_refresh interval_ms backoff_on_errors req = record req {
    should_refresh = not (interval_ms == 0);
    refresh_interval_ms = interval_ms;
    refresh_backoff_on_errors = backoff_on_errors;
  }

  abbrev pub set_on_complete : Option Pointer → Request W → Request W
  set_on_complete cb req = record req { on_complete = cb }

  abbrev pub set_on_failure : Option Pointer → Request W → Request W
  set_on_failure cb req = record req { on_failure = cb }

  abbrev pub set_on_write : Option Pointer → Request W → Request W
  set_on_write cb req = record req { write_cb = cb }

  abbrev pub set_on_retry : Option Pointer → Request W → Request W
  set_on_retry cb req = record req { on_retry = cb }

  abbrev pub set_on_prepare : Option Pointer → Request W → Request W
  set_on_prepare cb req = record req { on_prepare = cb }

  -- `curl_event_request_sink`, without the write to the sink that it is given
  unfoldable pub set_sink : Pointer → Option Pointer → Request W → Request W
  set_sink sink_iface none req = record req { sink_data = some sink_iface }
  set_sink sink_iface (some cleanup) req = record req {
    sink_data = some sink_iface;
    sink_data_cleanup = some cleanup;
  }

  abbrev pub set_plugin_data : Option Pointer → Option Pointer → Request W → Request W
  set_plugin_data plugin_data cleanup req = record req {
    plugin_data = plugin_data;
    plugin_data_cleanup = cleanup;
  }

  abbrev pub set_should_refresh : Request W → Request W
  set_should_refresh req = record req { should_refresh = true }

  abbrev pub set_max_download_size : ℤ → Request W → Request W
  set_max_download_size bytes req = record req { max_download_size = bytes }

  abbrev pub set_priority : ℤ → Request W → Request W
  set_priority priority req = record req { priority = priority }

  abbrev pub set_http3 : Bool → Request W → Request W
  set_http3 enable req = record req { http3_override = if enable then pos 1 else pos 0 }

  -- `curl_event_request_json_begin`; `root` is what `ajsona` or `ajsono` returns
  unfoldable pub json_begin : Pointer → Request W → Request W × Pointer
  json_begin root req = elim req.json_root [
    | none ↦ (default_method text_post (record req { json_root = some root }), root)
    | some old ↦ (req, old)
  ]

  abbrev pub json_autocontenttype : Bool → Request W → Request W
  json_autocontenttype enable req = record req { json_set_ct = enable }

  -- the part of `json_commit` behind its test; `text` is what `ajson_stringify` returns
  unfoldable pub commit_text : Option Text → Request W → Request W
  commit_text none req = req
  commit_text (some text) req =
      let body = set_body text req in
      default_method text_post
        (if req.json_set_ct then set_header text_content_type text_application_json body else body)

  -- `curl_event_request_json_commit`
  unfoldable pub json_commit : (Pointer → Option Text) → Request W → Request W
  unfolding commit_text
  json_commit stringify req = elim req.json_root [
    | none ↦ req
    | some root ↦ elim req.post_data [ none ↦ commit_text (stringify root) req | some body ↦ req ]
  ]
