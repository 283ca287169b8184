-- ===== src/FileSink/Tests.antt =====
-- A download to a file that succeeds at the second attempt.
use a_curl_library.Base.{◌≡◌, refl, none, some, List, [], ◌∷◌, pos}
use a_curl_library.Request.{Pointer}
use a_curl_library.FileSink.{File, opened, closed, wrote, file_sink, file_destroy}
use a_curl_library.FileSink.Streams.{
  SinkCall, opens, writes, fails, completes, call_all, opens_of, closes_of, streams_closed,
}

abbrev calls : List SinkCall
calls = writes 1 4 4 ∷ fails (pos 28) (pos 0) ∷ opens 62 ∷ writes 1 9 9 ∷ completes ∷ []

streams_closed_example :
    (f : File) × (call_all (opens 61 ∷ calls) (file_sink (97 ∷ []) none) ≡ some f)
    × ((p : Pointer) → opens_of p (file_destroy f).log ≡ closes_of p (file_destroy f).log)
streams_closed_example = streams_closed (97 ∷ []) none 61 calls

-- the calls of libc, the newest first
two_attempts :
    (f : File) × (call_all (opens 61 ∷ calls) (file_sink (97 ∷ []) none) ≡ some f)
    × (f.log ≡ wrote 62 1 9 ∷ opened 62 ∷ closed 61 ∷ wrote 61 1 4 ∷ opened 61 ∷ [])
unfolding call_all
two_attempts = (_, refl, refl)
