-- ===== src/Request/HandleTests.antt =====
-- The handle and the sink of a concrete request.
use a_curl_library.Base.{ℕ, ◌≡◌, ◌⊎◌, refl, true, false, Option, none, some, [], ◌∷◌, pos, negsuc}
use a_curl_library.External.Fixed.{fixed_double}
use a_curl_library.Request.{Pointer, Wrapper}
use a_curl_library.Request.Config.{Defaults, set_url, set_max_download_size, set_http3}
use a_curl_library.Request.Build.{request_init}
use a_curl_library.Request.Setup.{setup_curl_handle, run_prepare}
use a_curl_library.Request.Options.{Configured, setup_outcome}
use a_curl_library.Request.Sinks.{
  Sink, inits, writes, completes, default_on_write, default_on_complete,
}
use a_curl_library.Request.SinkOrder.{on_write, on_complete, call_all, call_back}

abbrev callbacks : Defaults
callbacks = record {
  on_write = 91;
  on_complete = 92;
  on_failure = 93;
  sink_destroy = 94;
  calculate_retry = 95;
}

abbrev fresh : Wrapper ℕ
unfolding request_init
fresh = request_init callbacks

abbrev limited : Wrapper ℕ
limited = record fresh {
  request = set_http3 true (set_max_download_size (pos 100) (set_url (104 ∷ []) fresh.request));
}

abbrev sink : Sink
sink = record { init = true; write = some (λ size nmemb. 4); complete = true; failure = false }

sink_calls :
    call_all (λ p. pos 0) sink (on_write 1 4 ∷ on_write 2 2 ∷ on_complete ∷ []) fresh
    ≡ inits (negsuc 0) ∷ writes 1 4 ∷ writes 2 2 ∷ completes ∷ []
unfolding call_all call_back default_on_write default_on_complete fresh
sink_calls = refl

abbrev no_pointer : Option Pointer
no_pointer = none

setup_outcome_example :
    let (w', os, ok) =
      setup_curl_handle (λ cb req. (req, true)) (some 6) (λ p. none) false limited in
    ((p : Pointer) × (some 6 ≡ some p) × (ok ≡ true) × Configured p false w' os)
    ⊎ (((run_prepare (λ cb req. (req, true)) limited.on_prepare limited.request).1 ≡ false)
        ⊎ (some 6 ≡ no_pointer))
      × (ok ≡ false)
      × (os ≡ [])
      × (w'.easy_handle ≡ none)
setup_outcome_example = setup_outcome (λ cb req. (req, true)) (some 6) (λ p. none) false limited
