-- ===== src/Request/Options.antt =====
-- What the handle of a request is set to.
use a_curl_library.Base.{
  ◌≡◌, ◌≢◌, zero, suc, negsuc, ℤ, ◌⊎◌, refl, ap, ◌∙◌, Bool, true, false, ◌||◌, Option, none, some,
  List, [], ◌∷◌, ◌++◌, pos, ltb_ℤ, if◌then◌else◌, Bool-cases, Option-cases, inl, inr,
}
use a_curl_library.Request.{Text, Pointer, Request, Wrapper}
use a_curl_library.Request.Setup.{
  Setopt, opt_url, opt_accept_encoding, opt_private, opt_share, common_options, opt_write_thunk,
  opt_header_callback, opt_http_version_3, use_http3, options, run_prepare, configure_handle,
  setup_curl_handle,
}
use a_curl_library.Request.Config.{json_commit}
use a_curl_library.Request.Quiet.{
  is_write_thunk, is_header_callback, is_http_version_3, any, any-append, IsQuiet,
  write_thunk-IsQuiet, header_callback-IsQuiet, http_version_3-IsQuiet, common-quiet,
}

-- A handle that was set up for a request: the counters of the request are reset, the first option is
-- its URL, its size is always checked, its Content-Length where there is a limit, and it asks for
-- HTTP/3 never where the override is 0, always where it is 1, and by the loop's default else.
pub record Configured {W : Type 0} (easy : Pointer) (enable_http3 : Bool) (w : Wrapper W)
    (os : List Setopt) : Type 0 where
  pub handle : w.easy_handle ≡ some easy
  pub counters : (w.content_length_found ≡ false) × (w.bytes_downloaded ≡ pos 0)
  pub size_checked : any is_write_thunk os ≡ true
  pub length_checked : any is_header_callback os ≡ ltb_ℤ (pos 0) w.max_download_size
  pub others : List Setopt
  pub address : os ≡ opt_url w.url ∷ others
  pub http3_off : w.http3_override ≡ pos 0 → any is_http_version_3 os ≡ false
  pub http3_on : w.http3_override ≡ pos 1 → any is_http_version_3 os ≡ true
  pub http3_default :
      w.http3_override ≢ pos 0 → w.http3_override ≢ pos 1 → any is_http_version_3 os ≡ enable_http3

use_http3_default :
    (enable_http3 : Bool) (x : ℤ) → x ≢ pos 0 → x ≢ pos 1 → use_http3 enable_http3 x ≡ enable_http3
use_http3_default h (pos zero) a b = elim (a refl) [ ]
use_http3_default h (pos (suc zero)) a b = elim (b refl) [ ]
use_http3_default h (pos (suc (suc n))) a b = refl
use_http3_default h (negsuc n) a b = refl

choice :
    (b c : Bool)
    → (any is_write_thunk (if b then opt_header_callback ∷ [] else [])
        || (any is_write_thunk (if c then opt_http_version_3 ∷ [] else [])
            || any is_write_thunk (opt_write_thunk ∷ opt_private ∷ opt_share ∷ [])))
      ≡ true
unfolding is_write_thunk
choice true true = refl
choice true false = refl
choice false true = refl
choice false false = refl

choice_length :
    (b c : Bool)
    → (any is_header_callback (if b then opt_header_callback ∷ [] else [])
        || (any is_header_callback (if c then opt_http_version_3 ∷ [] else [])
            || any is_header_callback (opt_write_thunk ∷ opt_private ∷ opt_share ∷ [])))
      ≡ b
unfolding is_header_callback
choice_length true true = refl
choice_length true false = refl
choice_length false true = refl
choice_length false false = refl

choice_http3 :
    (b c : Bool)
    → (any is_http_version_3 (if b then opt_header_callback ∷ [] else [])
        || (any is_http_version_3 (if c then opt_http_version_3 ∷ [] else [])
            || any is_http_version_3 (opt_write_thunk ∷ opt_private ∷ opt_share ∷ [])))
      ≡ c
unfolding is_http_version_3
choice_http3 true true = refl
choice_http3 true false = refl
choice_http3 false true = refl
choice_http3 false false = refl

module _ {W : Type 0} where
  -- where a test that is quiet on the others may hold
  options-any :
      (f : Setopt → Bool) (h : Bool) (req : Request W)
      → IsQuiet f
      → ((t : Option Text) → f (opt_url t) ≡ false)
      → f opt_accept_encoding ≡ false
      → any f (options h req) ≡ (
          any f (if ltb_ℤ (pos 0) req.max_download_size then opt_header_callback ∷ [] else [])
          || (any f (if use_http3 h req.http3_override then opt_http_version_3 ∷ [] else [])
              || any f (opt_write_thunk ∷ opt_private ∷ opt_share ∷ [])))
  unfolding options
  options-any f h req quiet url accept =
      let first = if ltb_ℤ (pos 0) req.max_download_size then opt_header_callback ∷ [] else [] in
      let third = if use_http3 h req.http3_override then opt_http_version_3 ∷ [] else [] in
      let last = opt_write_thunk ∷ opt_private ∷ opt_share ∷ [] in
      rw (url req.url, accept)
        (any-append f first (common_options req ++ (third ++ last))
          ∙ ap (λ b. any f first || b)
              (any-append f (common_options req) (third ++ last)
                ∙ ap (λ b. b || any f (third ++ last)) (common-quiet f req quiet)
                ∙ any-append f third last))

  size_checked : (h : Bool) (req : Request W) → any is_write_thunk (options h req) ≡ true
  unfolding is_write_thunk
  size_checked h req =
      options-any is_write_thunk h req write_thunk-IsQuiet (λ t. refl) refl
      ∙ choice (ltb_ℤ (pos 0) req.max_download_size) (use_http3 h req.http3_override)

  length_checked :
      (h : Bool) (req : Request W)
      → any is_header_callback (options h req) ≡ ltb_ℤ (pos 0) req.max_download_size
  unfolding is_header_callback
  length_checked h req =
      options-any is_header_callback h req header_callback-IsQuiet (λ t. refl) refl
      ∙ choice_length (ltb_ℤ (pos 0) req.max_download_size) (use_http3 h req.http3_override)

  http3_chosen :
      (h : Bool) (req : Request W)
      → any is_http_version_3 (options h req) ≡ use_http3 h req.http3_override
  unfolding is_http_version_3
  http3_chosen h req =
      options-any is_http_version_3 h req http_version_3-IsQuiet (λ t. refl) refl
      ∙ choice_http3 (ltb_ℤ (pos 0) req.max_download_size) (use_http3 h req.http3_override)

  -- Either the handle is set up: the request has it, with its counters reset; the first option is the
  -- URL; the size of the body is always checked, and the Content-Length exactly where there is a limit;
  -- and HTTP/3 is asked for never where the override is 0, always where it is 1, and by the loop's
  -- default else. Or the request's `on_prepare` refused, or there is no handle, and then no option is
  -- set and the request has no handle.
  pub setup_outcome :
      (call : Pointer → Request W → Request W × Bool) (easy : Option Pointer)
      (stringify : Pointer → Option Text) (h : Bool) (w : Wrapper W)
      → let (w', os, ok) = setup_curl_handle call easy stringify h w in
        ((p : Pointer) × (easy ≡ some p) × (ok ≡ true) × Configured p h w' os)
        ⊎ (((run_prepare call w.on_prepare w.request).1 ≡ false) ⊎ (easy ≡ none))
          × (ok ≡ false)
          × (os ≡ [])
          × (w'.easy_handle ≡ none)
  unfolding setup_curl_handle configure_handle options
  setup_outcome call easy stringify h w =
      let ready_request = json_commit stringify (run_prepare call w.on_prepare w.request).0 in
      elim (Bool-cases (run_prepare call w.on_prepare w.request).1) [
        | inl ready ↦ elim (Option-cases easy) [
          | inl e ↦ rw (setup_curl_handle, ready, e) (inr (inr refl, refl, refl, refl))
          | inr (p, e) ↦
              rw (setup_curl_handle, ready, e)
                (inl (
                  p,
                  refl,
                  refl,
                  record {
                    handle = refl;
                    counters = (refl, refl);
                    size_checked =
                        size_checked h
                          (json_commit stringify (run_prepare call w.on_prepare w.request).0);
                    length_checked =
                        length_checked h
                          (json_commit stringify (run_prepare call w.on_prepare w.request).0);
                    others = _;
                    address = refl;
                    http3_off = λ x. http3_chosen h ready_request ∙ ap (use_http3 h) x;
                    http3_on = λ x. http3_chosen h ready_request ∙ ap (use_http3 h) x;
                    http3_default = λ x y.
                        http3_chosen h ready_request
                        ∙ use_http3_default h ready_request.http3_override x y;
                  },
                ))
        ]
        | inr refused ↦ rw (setup_curl_handle, refused) (inr (inl refl, refl, refl, refl))
      ]
