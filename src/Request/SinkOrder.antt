-- ===== src/Request/SinkOrder.antt =====
-- The order in which a sink is called.
use a_curl_library.Base.{
  ℕ, ◌≡◌, Bool, true, false, some, List, [], ◌∷◌, ◌++◌, ℤ, All, if◌then◌else◌,
}
use a_curl_library.Request.{Pointer, Wrapper}
use a_curl_library.Request.Sinks.{
  Sink, SinkCall, inits, completes, fails, write_to, default_on_write, default_on_complete,
  default_on_failure,
}

-- The callbacks that libcurl and the event loop make for a request.
pub data Callback : Type 0 where
  on_write : (size nmemb : ℕ) → Callback
  on_complete on_failure : Callback

unfoldable pub is_init : SinkCall → Bool
is_init (inits n) = true
is_init _ = false

abbrev pub NoInit : List SinkCall → Type 0
NoInit = All (λ c. is_init c ≡ false)

-- what one callback calls beside `init`
abbrev rest_of : Sink → Callback → List SinkCall
rest_of sink (on_write size nmemb) = (write_to sink size nmemb).0
rest_of sink on_complete = if sink.complete then completes ∷ [] else []
rest_of sink on_failure = if sink.failure then fails ∷ [] else []

module _ {W : Type 0} where
  unfoldable pub call_back : (Pointer → ℤ) → Sink → Callback → Wrapper W → Wrapper W × List SinkCall
  call_back getinfo sink (on_write size nmemb) req =
      let (req', calls, taken) = default_on_write getinfo (some sink) size nmemb req in
      (req', calls)
  call_back getinfo sink on_complete req = default_on_complete getinfo (some sink) req
  call_back getinfo sink on_failure req = default_on_failure getinfo (some sink) req

  unfoldable pub call_all : (Pointer → ℤ) → Sink → List Callback → Wrapper W → List SinkCall
  call_all getinfo sink [] req = []
  call_all getinfo sink (c ∷ cs) req =
      let (req', calls) = call_back getinfo sink c req in calls ++ call_all getinfo sink cs req'
