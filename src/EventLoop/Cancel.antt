-- ===== src/EventLoop/Cancel.antt =====
-- What other threads ask of the loop: cancellation, submission, the stop. `curl_event_loop_inject`
-- is left out: its copy of a request shares the pool of the original.
use a_curl_library.Base.{
  ℕ, ◌+◌, ◌-◌, ◌*◌, ◌%◌, ◌^◌, Bool, true, false, Option, none, some, ◌∷◌, ℤ, pos, negsuc, suc,
  if◌then◌else◌,
}
use a_curl_library.Request.{Pointer, Wrapper}
use a_curl_library.Request.Submit.{count_total}
use a_curl_library.Loop.{Loop, Metrics, write_request}

-- `now - priority * 1e9` on 64 bits
abbrev pub shift_time : ℤ → ℕ → ℕ
shift_time (pos n) now = (now + 2 ^ 64 - (n * 1_000_000_000) % 2 ^ 64) % 2 ^ 64
shift_time (negsuc n) now = (now + suc n * 1_000_000_000) % 2 ^ 64

module _ {W T Q : Type 0} where
  -- `curl_event_loop_cancel`: the list of cancelled requests goes from `cancelled_requests` along
  -- `next_cancelled`, and ends with NULL
  unfoldable pub cancel : Pointer → Loop W T Q → Loop W T Q × Bool
  cancel r s = elim (s.requests r).next_cancelled [
    | some p ↦ (s, false)
    | none ↦
        let w : Wrapper W = record (s.requests r) { is_cancelled = true } in
        if w.is_pending then (write_request r w s, true) else (
          write_request r (record w { next_cancelled = s.cancelled_requests })
              (record s { cancelled_requests = some r }),
          true,
        )
  ]

  -- `curl_event_loop_submit`, of the header's functions
  unfoldable pub loop_submit : (now : ℕ) → Pointer → (priority : ℤ) → Loop W T Q → Loop W T Q
  loop_submit now r priority s =
      let at = shift_time priority now in
      let w = s.requests r in
      write_request r
        (record w {
          request = record w.request {
            next_retry_at = at;
            start_time = at;
            request_start_time = at;
          };
          is_pending = true;
        })
        (record s { pending_requests = r ∷ s.pending_requests; metrics = count_total s.metrics })

  -- `curl_event_loop_stop`
  abbrev pub stop : Loop W T Q → Loop W T Q
  stop s = record s { keep_running = false }

  -- `curl_event_loop_get_metrics`
  abbrev pub get_metrics : Option (Loop W T Q) → Metrics
  get_metrics none = record {
    total_requests = 0;
    completed_requests = 0;
    failed_requests = 0;
    retried_requests = 0;
  }
  get_metrics (some s) = s.metrics
