-- ===== src/Request/Download.antt =====
-- `write_thunk` of src/curl_event_request.c: the limit on the size of a download. A `long` has 64
-- bits, and its overflow wraps around.
use a_curl_library.Base.{
  ℕ, ◌*◌, ◌%◌, ◌^◌, Option, none, some, ℤ, pos, negsuc, ◌+ℤ◌, ◌-ℤ◌, ltb_ℤ, wrap_int, ltb,
  if◌then◌else◌, ◌&&◌,
}
use a_curl_library.Request.{Pointer, Wrapper}

abbrev pub long : ℤ → ℤ
long = wrap_int 63

-- a `long` that is not negative, as a `size_t`
abbrev pub size_of : ℤ → ℕ
size_of (pos n) = n
size_of (negsuc n) = 0

module _ {W : Type 0} where
  abbrev pub count_bytes : ℕ → Wrapper W → Wrapper W
  count_bytes n req = record req { bytes_downloaded = long (req.bytes_downloaded +ℤ long (pos n)) }

  -- The result: the request, the bytes handed to the user's callback, and the bytes taken. `accept`
  -- is what the callback at a pointer answers for a number of bytes.
  unfoldable pub over_limit :
      (accept : Pointer → ℕ → ℕ) → ℕ → Option Pointer → Wrapper W → Wrapper W × ℕ × ℕ
  over_limit accept allowed none req = (req, 0, 0)
  over_limit accept allowed (some cb) req =
      if ltb 0 allowed then (count_bytes (accept cb allowed) req, allowed, 0) else (req, 0, 0)

  unfoldable pub pass_on :
      (accept : Pointer → ℕ → ℕ) → ℕ → Option Pointer → Wrapper W → Wrapper W × ℕ × ℕ
  pass_on accept total none req = (req, 0, total)
  pass_on accept total (some cb) req = (req, total, accept cb total)

  unfoldable pub write_thunk :
      (accept : Pointer → ℕ → ℕ) (size nmemb : ℕ) → Wrapper W → Wrapper W × ℕ × ℕ
  unfolding over_limit pass_on
  write_thunk accept size nmemb req =
      let total = (size * nmemb) % 2 ^ 64 in
      if ltb_ℤ (pos 0) req.max_download_size
        && ltb_ℤ req.max_download_size (long (req.bytes_downloaded +ℤ long (pos total)))
      then over_limit accept (size_of (req.max_download_size -ℤ req.bytes_downloaded)) req.write_cb
          req
      else pass_on accept total req.write_cb (count_bytes total req)
