-- ===== src/Request/Limit.antt =====
-- How much of a download reaches the user's callback.
use native.Mathlib.Nat.{mod-eq_of_lt}
use a_curl_library.Base.{
  ℕ, ◌+◌, ◌-◌, ◌*◌, ◌^◌, ◌<◌, ◌≤◌, ◌≡◌, refl, ap, ◌∙◌, Option, none, some, List, [], ◌∷◌, pos, ◌+ℤ◌,
  ◌-ℤ◌, ltb_ℤ, wrap_int-small, arith, if◌then◌else◌, ◌==◌, ◌&&◌, ltb, All, Bool-cases, inl, inr,
}
use a_curl_library.Request.{Pointer, Wrapper}
use a_curl_library.Request.Download.{long, size_of, count_bytes, over_limit, pass_on, write_thunk}

-- A limit on the download and a count of the bytes so far that is within it, both far from 2 ^ 63.
pub record Within {W : Type 0} (b m : ℕ) (req : Wrapper W) : Type 0 where
  pub limited : req.max_download_size ≡ pos m
  pub counted : req.bytes_downloaded ≡ pos b
  pub within : b ≤ m
  pub positive : 0 < m
  pub small : m < 2 ^ 62

-- A chunk that libcurl can deliver.
abbrev pub IsChunk : ℕ × ℕ → Type 0
IsChunk (size, nmemb) = size * nmemb < 2 ^ 62

plus : (b n : ℕ) → pos b +ℤ pos n ≡ pos (b + n)
plus b n = ground arith

minus : (b m : ℕ) → b ≤ m → pos m -ℤ pos b ≡ pos (m - b)
minus b m h = ground (arith, h)

long_sum : (b n : ℕ) → b < 2 ^ 62 → n < 2 ^ 62 → long (pos b +ℤ long (pos n)) ≡ pos (b + n)
long_sum b n hb hn =
    ap (λ x. long (pos b +ℤ x)) (wrap_int-small 63 n (omega (arith, hn)))
    ∙ ap long (plus b n)
    ∙ wrap_int-small 63 (b + n) (omega (arith, hb, hn))

module _ {W : Type 0} where
  -- The bytes that reach the callback over a list of chunks, up to the first chunk of which another
  -- number of bytes is taken, where libcurl ends the transfer.
  unfoldable pub deliver : (Pointer → ℕ → ℕ) → List (ℕ × ℕ) → Wrapper W → ℕ
  deliver accept [] req = 0
  deliver accept ((size, nmemb) ∷ chunks) req =
      let (req', handed, taken) = write_thunk accept size nmemb req in
      let more = deliver accept chunks req' in handed + (if taken == size * nmemb then more else 0)

  abbrev counted_to : ℕ → Wrapper W → Wrapper W
  counted_to n req = record req { bytes_downloaded = pos n }

  count_bytes-small :
      (b n : ℕ) (req : Wrapper W)
      → req.bytes_downloaded ≡ pos b
      → b < 2 ^ 62
      → n < 2 ^ 62
      → count_bytes n req ≡ counted_to (b + n) req
  count_bytes-small b n req e hb hn =
      ap (λ x. record req { bytes_downloaded = long (x +ℤ long (pos n)) }) e
      ∙ ap (λ x. record req { bytes_downloaded = x }) (long_sum b n hb hn)

  over-small :
      (b m n : ℕ) (req : Wrapper W)
      → Within b m req
      → n < 2 ^ 62
      → (ltb_ℤ (pos 0) req.max_download_size
          && ltb_ℤ req.max_download_size (long (req.bytes_downloaded +ℤ long (pos n))))
        ≡ ltb m (b + n)
  over-small b m n req h hn =
      rw (h.limited, h.counted, long_sum b n (omega (arith, h.within, h.small)) hn)
        (ground (arith, h.positive))

  allowed-small :
      (b m : ℕ) (req : Wrapper W)
      → Within b m req
      → size_of (req.max_download_size -ℤ req.bytes_downloaded) ≡ m - b
  allowed-small b m req h = rw (h.limited, h.counted, minus b m h.within) refl

  write_thunk-small :
      (accept : Pointer → ℕ → ℕ) (size nmemb b m : ℕ) (req : Wrapper W)
      → Within b m req
      → size * nmemb < 2 ^ 62
      → write_thunk accept size nmemb req ≡ (
          if ltb m (b + size * nmemb)
          then over_limit accept (m - b) req.write_cb req
          else pass_on accept (size * nmemb) req.write_cb (counted_to (b + size * nmemb) req))
  unfolding write_thunk
  write_thunk-small accept size nmemb b m req h hn =
      rw
        (
          write_thunk,
          mod-eq_of_lt {n = size * nmemb} {m = 2 ^ 64} (omega (arith, hn)),
          over-small b m (size * nmemb) req h hn,
          allowed-small b m req h,
          count_bytes-small b (size * nmemb) req h.counted (omega (arith, h.within, h.small)) hn,
        )
        refl

  over_limit-handed :
      (accept : Pointer → ℕ → ℕ) (n : ℕ) (cb : Option Pointer) (req : Wrapper W)
      → ((over_limit accept n cb req).1 ≤ n) × ((over_limit accept n cb req).2 ≡ 0)
  unfolding over_limit
  over_limit-handed accept n none req = (omega arith, refl)
  over_limit-handed accept n (some cb) req = ground arith

  pass_on-handed :
      (accept : Pointer → ℕ → ℕ) (n : ℕ) (cb : Option Pointer) (req : Wrapper W)
      → ((pass_on accept n cb req).1 ≤ n) × ((pass_on accept n cb req).0 ≡ req)
  unfolding pass_on
  pass_on-handed accept n none req = (omega arith, refl)
  pass_on-handed accept n (some cb) req = (omega arith, refl)

  Within-counted :
      (b n m : ℕ) (req : Wrapper W)
      → Within b m req
      → b + n ≤ m
      → Within (b + n) m (counted_to (b + n) req)
  Within-counted b n m req h le = record {
    limited = h.limited;
    counted = refl;
    within = le;
    positive = h.positive;
    small = h.small;
  }

  -- Under a limit of `m` bytes, of which `b` are used, no more than `m - b` bytes reach the user's
  -- callback, over any chunks of fewer than 2 ^ 62 bytes and whatever the callback answers.
  pub deliver_below_limit :
      (accept : Pointer → ℕ → ℕ) (chunks : List (ℕ × ℕ)) (b m : ℕ) (req : Wrapper W)
      → Within b m req
      → All IsChunk chunks
      → deliver accept chunks req ≤ m - b
  unfolding deliver
  deliver_below_limit accept [] b m req h ok = omega arith
  deliver_below_limit accept ((size, nmemb) ∷ chunks) b m req h ok =
      let n = size * nmemb in
      elim (Bool-cases (ltb m (b + n))) [
        | inl over ↦
            rw (write_thunk-small accept size nmemb b m req h ok.0, over)
              (ground (arith, over_limit-handed accept (m - b) req.write_cb req, over, h.within))
        | inr fits ↦
            rw (write_thunk-small accept size nmemb b m req h ok.0, fits)
              (let req' = counted_to (b + n) req in
                let le : b + n ≤ m = ground (arith, fits) in
                let (few, same) = pass_on-handed accept n req.write_cb req' in
                let rest =
                  deliver_below_limit accept chunks (b + n) m req' (Within-counted b n m req h le)
                    ok.1 in
                rw same (ground (arith, few, rest, le)))
      ]
