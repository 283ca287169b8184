-- ===== src/Request/Reads.antt =====
-- Which length `header_callback` reads.
use native.Mathlib.Nat.{pow-succ'}
use a_curl_library.Base.{
  ℕ, ltb, ◌==◌, false, ==_iff, zero, suc, ◌+◌, ◌-◌, ◌*◌, ◌^◌, ◌<◌, ◌≤◌, ◌≡◌, refl, sym, ap, ◌∙◌,
  true, false, ◌&&◌, some, [], ◌∷◌, ◌++◌, pos, ltb_ℤ, wrap_int-small, arith, if◌then◌else◌, length,
  All, Bool-cases, inl, inr,
}
use a_curl_library.Request.{Text, Wrapper}
use a_curl_library.Request.Literals.{text_content_length}
use a_curl_library.Request.Length.{
  to_lower, is_digit, c_string, rtrim, ltrim, after_prefix, skip_colon, read_length,
  content_length_header, header_callback,
}

abbrev pub IsDigit : ℕ → Type 0
IsDigit c = is_digit c ≡ true

-- the number that decimal digits stand for
abbrev pub place_value : Text → ℕ
place_value [] = 0
place_value (c ∷ cs) = (c - 48) * 10 ^ length cs + place_value cs

-- The same letters, in any case.
abbrev pub Spells : Text → Text → Type 0
Spells [] [] = Unit {0}
Spells [] (c ∷ cs) = ⊥
Spells (p ∷ ps) [] = ⊥
Spells (p ∷ ps) (c ∷ cs) = (to_lower p ≡ to_lower c) × Spells ps cs

-- the header as a server sends it
abbrev pub length_header : (name digits : Text) → Text
length_header name digits = name ++ (58 ∷ 32 ∷ (digits ++ 13 ∷ 10 ∷ []))

pow_pos : (k : ℕ) → 1 ≤ 10 ^ k
pow_pos zero = omega arith
pow_pos (suc k) = omega (arith, pow-succ' 10 k, pow_pos k)

mul_le : (a p : ℕ) → 1 ≤ p → a ≤ a * p
mul_le a zero h = omega (arith, h)
mul_le a (suc p) h = omega arith

shift : (n d p v : ℕ) → n * (10 * p) + (d * p + v) ≡ (n * 10 + d) * p + v
shift n d p v = omega arith

read_next :
    (n c k v : ℕ)
    → n * (10 * 10 ^ k) + ((c - 48) * 10 ^ k + v) < 2 ^ 63
    → n * 10 + (c - 48) < 2 ^ 63
read_next n c k v h =
    omega (arith, h, shift n (c - 48) (10 ^ k) v, mul_le (n * 10 + (c - 48)) (10 ^ k) (pow_pos k))

not_negative : (n : ℕ) → ltb_ℤ (pos n) (pos 0) ≡ false
not_negative n = ground arith

read_length-digits :
    (n : ℕ) (ds : Text)
    → All IsDigit ds
    → n * 10 ^ length ds + place_value ds < 2 ^ 63
    → read_length (pos n) ds ≡ pos (n * 10 ^ length ds + place_value ds)
read_length-digits n [] h small = ap pos (omega arith)
read_length-digits n (c ∷ cs) h small =
    let next = n * 10 + (c - 48) in
    let small' : n * (10 * 10 ^ length cs) + ((c - 48) * 10 ^ length cs + place_value cs) < 2 ^ 63 =
      rw (sym (pow-succ' 10 (length cs))) small in
    let same = shift n (c - 48) (10 ^ length cs) (place_value cs) in
    rw
      (
        wrap_int-small 63 next (read_next n c (length cs) (place_value cs) small'),
        h.0,
        not_negative next,
        read_length-digits next cs h.1 (omega (arith, small', same)),
      )
      (ap pos (
        sym same
        ∙ ap (λ x. n * x + ((c - 48) * 10 ^ length cs + place_value cs))
            (sym (pow-succ' 10 (length cs)))))

rtrim-digits : (ds : Text) → All IsDigit ds → rtrim (ds ++ 13 ∷ 10 ∷ []) ≡ ds
rtrim-digits [] h = refl
rtrim-digits (d ∷ []) h = ground (arith, h.0)
rtrim-digits (d ∷ e ∷ ds) h = rw (rtrim-digits (e ∷ ds) h.1) refl

c_string-digits : (ds : Text) → All IsDigit ds → c_string (ds ++ 13 ∷ 10 ∷ []) ≡ ds ++ 13 ∷ 10 ∷ []
c_string-digits [] h = refl
c_string-digits (d ∷ ds) h = rw (c_string-digits ds h.1) (ground (arith, h.0))

ltrim-digit : (d : ℕ) (ds : Text) → IsDigit d → ltrim (d ∷ ds) ≡ d ∷ ds
ltrim-digit d ds h = ground (arith, h)

abbrev IsLetter : ℕ → Type 0
IsLetter p = ltb 0 (to_lower p) ≡ true

spelled_byte : (p c : ℕ) → IsLetter p → to_lower p ≡ to_lower c → (c == 0) ≡ false
spelled_byte p zero h e = cc (ap (λ x. ltb 0 x) e, h)
spelled_byte p (suc c) h e = ground arith

c_string-spelled :
    (ps name rest : Text)
    → All IsLetter ps
    → Spells ps name
    → c_string (name ++ rest) ≡ name ++ c_string rest
c_string-spelled [] [] rest h e = refl
c_string-spelled [] (c ∷ cs) rest h e = elim e [ ]
c_string-spelled (p ∷ ps) [] rest h e = elim e [ ]
c_string-spelled (p ∷ ps) (c ∷ cs) rest h e =
    rw (spelled_byte p c h.0 e.0, c_string-spelled ps cs rest h.1 e.1) refl

rtrim-append :
    (name rest : Text) (y : ℕ) (ys : Text)
    → rtrim rest ≡ y ∷ ys
    → rtrim (name ++ rest) ≡ name ++ y ∷ ys
rtrim-append [] rest y ys e = e
rtrim-append (c ∷ []) rest y ys e = rw e refl
rtrim-append (c ∷ d ∷ cs) rest y ys e = rw (rtrim-append (d ∷ cs) rest y ys e) refl

after_prefix-spelled :
    (ps name rest : Text) → Spells ps name → after_prefix ps (name ++ rest) ≡ some rest
after_prefix-spelled [] [] rest e = refl
after_prefix-spelled [] (c ∷ cs) rest e = elim e [ ]
after_prefix-spelled (p ∷ ps) [] rest e = elim e [ ]
after_prefix-spelled (p ∷ ps) (c ∷ cs) rest e =
    rw ((==_iff (to_lower p) (to_lower c)).1 e.0, after_prefix-spelled ps cs rest e.1) refl

length_letters : All IsLetter text_content_length
length_letters = (
  refl,
  (
    refl,
    (
      refl,
      (refl, (refl, (refl, (refl, (refl, (refl, (refl, (refl, (refl, (refl, (refl, tt))))))))))),
    ),
  ),
)

line-digits :
    (name : Text) (d : ℕ) (ds : Text)
    → Spells text_content_length name
    → All IsDigit (d ∷ ds)
    → after_prefix text_content_length (rtrim (c_string (length_header name (d ∷ ds))))
      ≡ some (58 ∷ 32 ∷ d ∷ ds)
line-digits name d ds spelled h =
    let rest : Text = 58 ∷ 32 ∷ ((d ∷ ds) ++ 13 ∷ 10 ∷ []) in
    let trimmed : rtrim rest ≡ 58 ∷ 32 ∷ d ∷ ds = rw (rtrim-digits (d ∷ ds) h) refl in
    let whole : c_string rest ≡ rest = rw (c_string-digits (d ∷ ds) h) refl in
    ap (λ x. after_prefix text_content_length (rtrim x))
      (c_string-spelled text_content_length name rest length_letters spelled
        ∙ ap (λ x. name ++ x) whole)
    ∙ ap (after_prefix text_content_length) (rtrim-append name rest 58 (32 ∷ d ∷ ds) trimmed)
    ∙ after_prefix-spelled text_content_length name (58 ∷ 32 ∷ d ∷ ds) spelled

module _ {W : Type 0} where
  header_found :
      (line p : Text) (req : Wrapper W)
      → after_prefix text_content_length (rtrim (c_string line)) ≡ some p
      → header_callback true line req ≡ content_length_header (length line) p req
  unfolding header_callback
  header_found line p req e = rw (header_callback, e) refl

  length_found :
      (n v : ℕ) (p : Text) (req : Wrapper W)
      → read_length (pos 0) (ltrim (skip_colon p)) ≡ pos v
      → content_length_header n p req ≡ (
        record req { content_length_found = true; content_length = pos v },
        if ltb_ℤ req.max_download_size (pos v) && ltb_ℤ (pos 0) req.max_download_size then 0 else n,
      )
  unfolding content_length_header
  length_found n v p req e =
      elim (Bool-cases
        (ltb_ℤ req.max_download_size (pos v) && ltb_ℤ (pos 0) req.max_download_size)) [
          | inl over ↦ rw (content_length_header, e, over) refl
          | inr fits ↦ rw (content_length_header, e, fits) refl
        ]

  -- For a line that is Content-Length in any case of its letters, a colon, a space, digits that stand
  -- for a number `v` below 2 ^ 63, and CR LF, where the copy of the line is allocated: the callback
  -- stores exactly `v`, and rejects the response exactly where there is a limit and `v` is above it.
  pub header_callback_reads :
      (name : Text) (d : ℕ) (ds : Text) (req : Wrapper W)
      → Spells text_content_length name
      → All IsDigit (d ∷ ds)
      → place_value (d ∷ ds) < 2 ^ 63
      → let v = place_value (d ∷ ds) in
        let line = length_header name (d ∷ ds) in
        header_callback true line req ≡ (
          record req { content_length_found = true; content_length = pos v },
          if ltb_ℤ req.max_download_size (pos v) && ltb_ℤ (pos 0) req.max_download_size
              then 0
              else length line,
        )
  header_callback_reads name d ds req spelled h small =
      let line = length_header name (d ∷ ds) in
      header_found line (58 ∷ 32 ∷ d ∷ ds) req (line-digits name d ds spelled h)
      ∙ length_found (length line) (place_value (d ∷ ds)) (58 ∷ 32 ∷ d ∷ ds) req (
          ap (read_length (pos 0)) (ltrim-digit d ds h.0)
          ∙ read_length-digits 0 (d ∷ ds) h (omega (arith, small))
          ∙ ap pos (omega arith))
