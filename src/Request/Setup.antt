-- ===== src/Request/Setup.antt =====
-- `setup_curl_handle` of src/curl_event_request.c: the options that a request puts on its handle.
-- The user's `on_prepare`, `curl_easy_init` and `ajson_stringify` are parameters.
use a_curl_library.Base.{
  zero, suc, Bool, true, false, ◌&&◌, Option, none, some, List, [], ◌∷◌, ◌++◌, ℤ, pos, negsuc,
  ltb_ℤ, ◌==◌, if◌then◌else◌,
}
use a_curl_library.Request.{Text, Pointer, Request, Wrapper}
use a_curl_library.Request.Literals.{text_post, text_put, text_delete, text_patch}
use a_curl_library.Request.Length.{to_lower}
use a_curl_library.Request.Submit.{implied_method}
use a_curl_library.Request.Config.{json_commit}

-- a call of `curl_easy_setopt`, by its option
pub data Setopt : Type 0 where
  opt_url : Option Text → Setopt
  opt_accept_encoding opt_header_callback opt_post opt_upload opt_http_version_3 : Setopt
  opt_post_fields opt_custom_request : Text → Setopt
  opt_http_header : List Text → Setopt
  opt_connect_timeout opt_timeout opt_low_speed_limit opt_low_speed_time : ℤ → Setopt
  opt_write_thunk opt_private opt_share : Setopt

-- `strcasecmp(a, b) == 0`
abbrev pub same_text : Text → Text → Bool
same_text [] [] = true
same_text (a ∷ as₁) (b ∷ bs) = (to_lower a == to_lower b) && same_text as₁ bs
same_text _ _ = false

abbrev pub body_option : Option Text → List Setopt
body_option none = []
body_option (some body) = opt_post_fields body ∷ []

abbrev pub method_options : Text → Option Text → List Setopt
method_options method post_data =
    if same_text method text_post
    then opt_post ∷ body_option post_data
    else (if same_text method text_put
        then opt_upload ∷ body_option post_data
        else (if same_text method text_delete
            then opt_custom_request text_delete ∷ []
            else (if same_text method text_patch
                then opt_custom_request text_patch ∷ body_option post_data
                else [])))

abbrev pub or_implied : Option Text → Option Text → Text
or_implied none post_data = implied_method post_data
or_implied (some method) post_data = method

-- `if (value > 0) curl_easy_setopt(...)`
abbrev pub positive_option : (ℤ → Setopt) → ℤ → List Setopt
positive_option option value = if ltb_ℤ (pos 0) value then option value ∷ [] else []

abbrev pub header_option : List Text → List Setopt
header_option [] = []
header_option (h ∷ hs) = opt_http_header (h ∷ hs) ∷ []

-- the loop's default unless the request overrides it
abbrev pub use_http3 : Bool → ℤ → Bool
use_http3 enable_http3 (pos zero) = false
use_http3 enable_http3 (pos (suc zero)) = true
use_http3 enable_http3 _ = enable_http3

module _ {W : Type 0} where
  -- the options that depend on the method, the headers and the times
  unfoldable pub common_options : Request W → List Setopt
  common_options req =
      method_options (or_implied req.method req.post_data) req.post_data
      ++ (header_option req.headers
          ++ (positive_option opt_connect_timeout req.connect_timeout
              ++ (positive_option opt_timeout req.transfer_timeout
                  ++ (positive_option opt_low_speed_limit req.low_speed_limit
                      ++ positive_option opt_low_speed_time req.low_speed_time))))

  -- the options of a handle, in the order of the calls
  unfoldable pub options : (enable_http3 : Bool) → Request W → List Setopt
  unfolding common_options
  options enable_http3 req =
      opt_url req.url
      ∷ opt_accept_encoding
      ∷ ((if ltb_ℤ (pos 0) req.max_download_size then opt_header_callback ∷ [] else [])
          ++ (common_options req
              ++ ((if use_http3 enable_http3 req.http3_override
                    then opt_http_version_3 ∷ []
                    else [])
                  ++ opt_write_thunk ∷ opt_private ∷ opt_share ∷ [])))

  -- the answer of `on_prepare`, where it is set
  abbrev pub run_prepare :
      (Pointer → Request W → Request W × Bool) → Option Pointer → Request W → Request W × Bool
  run_prepare call none req = (req, true)
  run_prepare call (some cb) req = call cb req

  -- behind `curl_easy_init`
  unfoldable pub configure_handle :
      (stringify : Pointer → Option Text) (enable_http3 : Bool)
      → Option Pointer
      → Wrapper W
      → Wrapper W × List Setopt × Bool
  unfolding options
  configure_handle stringify enable_http3 none w = (w, [], false)
  configure_handle stringify enable_http3 (some easy) w =
      let request = json_commit stringify w.request in
      (record w { easy_handle = some easy; request = request }, options enable_http3 request, true)

  -- `easy` is what `curl_easy_init` returns
  unfoldable pub setup_curl_handle :
      (call : Pointer → Request W → Request W × Bool) (easy : Option Pointer)
      (stringify : Pointer → Option Text) (enable_http3 : Bool)
      → Wrapper W
      → Wrapper W × List Setopt × Bool
  unfolding configure_handle
  setup_curl_handle call easy stringify enable_http3 w =
      let (request, ready) = run_prepare call w.on_prepare w.request in
      let w' : Wrapper W = record w {
        request = request;
        easy_handle = none;
        content_length_found = false;
        content_length = negsuc 0;
        bytes_downloaded = pos 0;
      } in
      if ready then configure_handle stringify enable_http3 easy w' else (w', [], false)
