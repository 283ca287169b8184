-- ===== src/Request/Sinks.antt =====
-- The default callbacks of src/curl_event_request.c, which pass a response to the sink of a request,
-- and `curl_event_request_content_length`. A sink is what it has of the interface
-- `curl_sink_interface_t`; what is called of it is answered in the order of the calls.
use a_curl_library.Base.{
  ℕ, ◌*◌, ◌%◌, ◌^◌, Bool, true, ◌&&◌, Option, none, some, List, [], ◌∷◌, ◌++◌, ℤ, pos, negsuc,
  if◌then◌else◌, not,
}
use a_curl_library.Request.{Pointer, Wrapper}

-- `curl_sink_interface_t`, each function by its presence; `write` is what the function answers
pub record Sink : Type 0 where
  pub init : Bool
  pub write : Option (ℕ → ℕ → ℕ)
  pub complete : Bool
  pub failure : Bool

pub data SinkCall : Type 0 where
  inits : (content_length : ℤ) → SinkCall
  writes : (size nmemb : ℕ) → SinkCall
  completes fails : SinkCall

-- `if (content_length >= 0) req->content_length = content_length`
abbrev pub keep_length : ℤ → ℤ → ℤ
keep_length (pos n) old = pos n
keep_length (negsuc n) old = old

abbrev pub write_to : Sink → ℕ → ℕ → List SinkCall × ℕ
write_to sink size nmemb = elim sink.write [
  | none ↦ ([], (size * nmemb) % 2 ^ 64)
  | some write ↦ (writes size nmemb ∷ [], write size nmemb)
]

module _ {W : Type 0} where
  -- `getinfo` is CURLINFO_CONTENT_LENGTH_DOWNLOAD_T of a handle
  unfoldable pub content_length : (getinfo : Pointer → ℤ) → Wrapper W → Wrapper W × ℤ
  content_length getinfo req =
      let known : ℤ = elim req.easy_handle [
        | none ↦ req.content_length
        | some easy ↦ keep_length (getinfo easy) req.content_length
      ] in
      if req.content_length_found
      then (req, req.content_length)
      else (record req { content_length = known; content_length_found = true }, known)

  -- `if (!req->sink_initialized && sink->init) { ... }`
  unfoldable pub ensure_init : (Pointer → ℤ) → Sink → Wrapper W → Wrapper W × List SinkCall
  unfolding content_length
  ensure_init getinfo sink req =
      let (req', n) = content_length getinfo req in
      if not req.sink_initialized && sink.init
      then (record req' { request = record req'.request { sink_initialized = true } }, inits n ∷ [])
      else (req, [])

  -- `default_on_write` on the sink that is there, or none
  unfoldable pub default_on_write :
      (Pointer → ℤ) → Option Sink → (size nmemb : ℕ) → Wrapper W → Wrapper W × List SinkCall × ℕ
  unfolding ensure_init
  default_on_write getinfo none size nmemb req = (req, [], (size * nmemb) % 2 ^ 64)
  default_on_write getinfo (some sink) size nmemb req =
      let (req', calls) = ensure_init getinfo sink req in
      let (more, taken) = write_to sink size nmemb in (req', calls ++ more, taken)

  -- `default_on_complete`, which answers 0
  unfoldable pub default_on_complete :
      (Pointer → ℤ) → Option Sink → Wrapper W → Wrapper W × List SinkCall
  unfolding ensure_init
  default_on_complete getinfo none req = (req, [])
  default_on_complete getinfo (some sink) req =
      let (req', calls) = ensure_init getinfo sink req in
      (req', calls ++ (if sink.complete then completes ∷ [] else []))

  -- `default_on_failure`, which answers 0
  unfoldable pub default_on_failure :
      (Pointer → ℤ) → Option Sink → Wrapper W → Wrapper W × List SinkCall
  unfolding ensure_init
  default_on_failure getinfo none req = (req, [])
  default_on_failure getinfo (some sink) req =
      let (req', calls) = ensure_init getinfo sink req in
      (req', calls ++ (if sink.failure then fails ∷ [] else []))
