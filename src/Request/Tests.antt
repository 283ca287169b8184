-- ===== src/Request/Tests.antt =====
-- Requests at concrete values, with doubles in thousandths.
use a_curl_library.Base.{
  map, ◌++◌, ℕ, ◌/◌, ◌≤◌, ◌<◌, ◌≡◌, ◌⊎◌, refl, true, false, none, List, [], ◌∷◌, pos, arith, All,
  max,
}
use a_curl_library.Base.Int.{wrap_int}
use a_curl_library.External.Fixed.{fixed_double}
use a_curl_library.Request.{Text, Wrapper}
use a_curl_library.Request.Config.{Defaults, set_url}
use a_curl_library.Request.Build.{request_init}
use a_curl_library.Request.Headers.{header_line, set_line}
use a_curl_library.Request.Replace.{
  has_header, HasName, Rewritten, set_line_sets, set_line_last_wins,
}
use a_curl_library.Request.Literals.{text_content_length}
use a_curl_library.Request.Length.{to_lower, header_callback}
use a_curl_library.Request.Reads.{Spells, length_header, header_callback_reads}
use a_curl_library.Request.Limit.{deliver, deliver_below_limit}
use a_curl_library.Request.Retry.{compute_backoff_ms}
use a_curl_library.Request.Backoff.{
  exponential_ms, power, granted, granted_until_max, backoff_bounds,
}
use a_curl_library.Request.Submit.{submit}
use a_curl_library.Request.Submission.{IsFree, IsBarred, Submitted, submit_outcome}
use a_curl_library.Loop.{Loop}

abbrev callbacks : Defaults
callbacks = record {
  on_write = 91;
  on_complete = 92;
  on_failure = 93;
  sink_destroy = 94;
  calculate_retry = 95;
}

abbrev fresh : Wrapper ℕ
unfolding request_init
fresh = request_init callbacks

-- A download of at most ten bytes, of which four have come.
abbrev limited : Wrapper ℕ
limited = record fresh {
  request = record fresh.request { max_download_size = pos 10; max_retries = pos 3 };
  bytes_downloaded = pos 4;
}

abbrev with_url : Wrapper ℕ
with_url = record fresh { request = set_url (104 ∷ []) fresh.request }

abbrev idle : Loop ℕ (Unit {0}) (Unit {0})
idle = record {
  requests = λ p. with_url;
  enable_http3 = false;
  max_concurrent_requests = 1;
  keep_running = true;
  queued_requests = tt;
  inactive_requests = tt;
  refresh_requests = tt;
  rate_limited_requests = tt;
  resources = tt;
  res_inbox = [];
  num_queued_requests = pos 0;
  num_multi_requests = pos 0;
  num_inactive_requests = pos 0;
  num_refresh_requests = pos 0;
  metrics = record {
    total_requests = 0;
    completed_requests = 0;
    failed_requests = 0;
    retried_requests = 0;
  };
  cancelled_requests = none;
  pending_requests = 8 ∷ [];
  injected_requests = [];
  next_id = 1;
  log = [];
}

-- "A: x", "B: y", "A: z"
abbrev lines : List Text
lines = (65 ∷ 58 ∷ 32 ∷ 120 ∷ []) ∷ (66 ∷ 58 ∷ 32 ∷ 121 ∷ []) ∷ (65 ∷ 58 ∷ 32 ∷ 122 ∷ []) ∷ []

set_line_value :
    set_line (65 ∷ []) (119 ∷ []) lines
    ≡ (65 ∷ 58 ∷ 32 ∷ 119 ∷ []) ∷ (66 ∷ 58 ∷ 32 ∷ 121 ∷ []) ∷ (65 ∷ 58 ∷ 32 ∷ 119 ∷ []) ∷ []
unfolding set_line
set_line_value = refl

-- 18446744073709551617, which is 2 ^ 64 + 1, is read as 1: the overflow is not seen.
overflow_value :
    (header_callback true
      (length_header text_content_length (
        49 ∷ 56 ∷ 52 ∷ 52 ∷ 54 ∷ 55 ∷ 52 ∷ 52 ∷ 48 ∷ 55 ∷ 51 ∷ 55 ∷ 48 ∷ 57 ∷ 53 ∷ 53 ∷ 49 ∷ 54 ∷ 49
        ∷ 55 ∷ []))
      limited).0.content_length
    ≡ pos 1
unfolding header_callback wrap_int
overflow_value = refl

set_line_sets_example :
    let ls' = set_line (65 ∷ []) (119 ∷ []) lines in
    ((has_header (65 ∷ []) lines ≡ true) × Rewritten (65 ∷ []) (119 ∷ []) lines ls')
    ⊎ (All (λ l. ¬ HasName (65 ∷ []) l) lines
        × (ls' ≡ lines ++ header_line (65 ∷ []) (119 ∷ []) ∷ []))
set_line_sets_example = set_line_sets (65 ∷ []) (119 ∷ []) lines

set_line_last_wins_example :
    set_line (65 ∷ []) (119 ∷ []) (set_line (65 ∷ []) (118 ∷ []) lines)
    ≡ set_line (65 ∷ []) (119 ∷ []) lines
set_line_last_wins_example = set_line_last_wins (65 ∷ []) (118 ∷ []) (119 ∷ []) lines

-- "content-length"
abbrev lower_name : Text
lower_name = map to_lower text_content_length

lower_name-Spells : Spells text_content_length lower_name
lower_name-Spells = (
  refl,
  (
    refl,
    (
      refl,
      (refl, (refl, (refl, (refl, (refl, (refl, (refl, (refl, (refl, (refl, (refl, tt))))))))))),
    ),
  ),
)

-- "42" is above the limit of ten bytes.
header_callback_reads_example :
    header_callback true (length_header lower_name (52 ∷ 50 ∷ [])) limited
    ≡ (record limited { content_length_found = true; content_length = pos 42 }, 0)
header_callback_reads_example =
    header_callback_reads lower_name 52 (50 ∷ []) limited lower_name-Spells (refl, (refl, tt))
      (omega arith)

deliver_below_limit_example : deliver (λ p n. n) ((1, 5) ∷ (2, 4) ∷ []) limited ≤ 6
deliver_below_limit_example =
    deliver_below_limit (λ p n. n) ((1, 5) ∷ (2, 4) ∷ []) 4 10 limited
      (record {
        limited = refl;
        counted = refl;
        within = omega arith;
        positive = omega arith;
        small = omega arith;
      })
      (omega arith, (omega arith, tt))

granted_until_max_example : granted ((5, 1) ∷ (6, 2) ∷ (7, 3) ∷ (8, 4) ∷ []) limited.request ≡ 3
unfolding fresh
granted_until_max_example =
    granted_until_max ((5, 1) ∷ (6, 2) ∷ (7, 3) ∷ (8, 4) ∷ []) 0 3 limited.request refl refl
      (omega arith)

backoff_bounds_example :
    let max_ms : ℕ = 300 in
    let delay = compute_backoff_ms {W = ℕ} (pos 2) 2000 50 300 false 12345 in
    let cap_ms = exponential_ms {W = ℕ} (pos 2) 2000 in
    (0 < 300 → delay ≤ 300)
    × ((max_ms ≡ 0) ⊎ (50 ≤ 300) → 50 ≤ delay)
    × (max_ms ≡ 0 → delay ≤ max cap_ms 50)
    × (max_ms ≡ 0 → false ≡ false → cap_ms / 2 ≤ delay)
unfolding power
backoff_bounds_example =
    backoff_bounds {W = ℕ} (pos 2) 2000 50 300 false 12345 (unfold exponential_ms in omega arith)

accepted_first : (submit callbacks 50 7 (pos 0) idle).1 ≡ true
unfolding submit fresh
accepted_first = refl

submit_outcome_example :
    let (s', accepted) = submit callbacks 50 7 (pos 0) idle in
    (IsFree with_url × (accepted ≡ true) × Submitted 50 7 idle s')
    ⊎ (IsBarred with_url × (accepted ≡ false) × (s' ≡ idle))
submit_outcome_example = submit_outcome callbacks 50 7 (pos 0) idle
