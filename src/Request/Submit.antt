-- ===== src/Request/Submit.antt =====
-- `curl_event_request_submit` of src/curl_event_request.c. The time of `macro_now` is an argument;
-- the loop's mutex makes the insertion one step. The loop is there.
use a_curl_library.Base.{
  ℕ, ◌+◌, ◌-◌, ◌*◌, ◌%◌, ◌^◌, Bool, true, false, ◌||◌, Option, none, some, ◌∷◌, ℤ, pos, pos_part,
  ltb, leb, if◌then◌else◌,
}
use a_curl_library.Request.{Text, Pointer, Request, Wrapper}
use a_curl_library.Request.Literals.{text_post, text_get}
use a_curl_library.Request.Config.{Defaults, default_method, default_on_retry}
use a_curl_library.Loop.{Loop, Metrics, write_request}

abbrev pub is_zero : ℤ → Bool
is_zero (pos n) = leb n 0
is_zero _ = false

abbrev pub implied_method : Option Text → Text
implied_method none = text_get
implied_method (some body) = text_post

-- earlier by the priority's seconds, unless that is before the start of time
abbrev pub start_at : ℤ → ℕ → ℕ
start_at pri now =
    let adj = (pos_part pri * 1_000_000_000) % 2 ^ 64 in
    if is_zero pri then now else (if ltb adj now then now - adj else now)

abbrev pub count_total : Metrics → Metrics
count_total m = record m { total_requests = m.total_requests + 1 }

module _ {W : Type 0} where
  -- the inferred defaults and the times
  unfoldable pub prepare : Defaults → (now : ℕ) (priority : ℤ) → Request W → Request W
  prepare f now priority req =
      let r₁ = default_method (implied_method req.post_data) req in
      let r₂ = if is_zero r₁.max_retries then r₁ else default_on_retry f r₁ in
      record r₂ {
        next_retry_at = start_at (if is_zero priority then r₂.priority else priority) now;
        start_time = now;
        request_start_time = now;
      }

  -- A request that has a URL and is neither marked as pending nor a transfer.
  abbrev pub is_submittable : Wrapper W → Bool
  is_submittable w = elim w.url [
    | none ↦ false
    | some url ↦ if w.is_pending || w.multi_handle then false else true
  ]

module _ {W T Q : Type 0} where
  -- the insertion into the list of pending requests
  unfoldable pub make_pending : Pointer → Request W → Loop W T Q → Loop W T Q
  make_pending r request s =
      write_request r (record (s.requests r) { request = request; is_pending = true })
        (record s { pending_requests = r ∷ s.pending_requests; metrics = count_total s.metrics })

  -- The answer is false for NULL.
  unfoldable pub submit :
      Defaults → (now : ℕ) → Pointer → (priority : ℤ) → Loop W T Q → Loop W T Q × Bool
  unfolding make_pending prepare
  submit f now r priority s =
      if is_submittable (s.requests r)
      then (make_pending r (prepare f now priority (s.requests r).request) s, true)
      else (s, false)

  -- `curl_event_request_submitp`
  unfoldable pub submitp : Defaults → (now : ℕ) → Pointer → Loop W T Q → Loop W T Q × Bool
  unfolding submit
  submitp f now r s = submit f now r (s.requests r).priority s
