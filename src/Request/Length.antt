-- ===== src/Request/Length.antt =====
-- `header_callback` of src/curl_event_request.c: the Content-Length of a response. A `long` has 64
-- bits, and its overflow wraps around.
use a_curl_library.Base.{
  ℕ, ◌+◌, ◌-◌, ◌*◌, Bool, true, false, ◌&&◌, ◌||◌, Option, none, some, List, [], ◌∷◌, ℤ, pos,
  negsuc, ltb_ℤ, wrap_int, ◌==◌, leb, if◌then◌else◌, length,
}
use a_curl_library.Request.{Text, Wrapper}
use a_curl_library.Request.Literals.{text_content_length}

-- `isspace`, `isdigit` and `tolower` of the C locale
abbrev pub is_space : ℕ → Bool
is_space c = (c == 32) || (leb 9 c && leb c 13)

abbrev pub is_digit : ℕ → Bool
is_digit c = leb 48 c && leb c 57

abbrev pub to_lower : ℕ → ℕ
to_lower c = if leb 65 c && leb c 90 then c + 32 else c

-- The string that starts at a buffer: up to the first zero byte.
abbrev pub c_string : List ℕ → Text
c_string [] = []
c_string (c ∷ cs) = let rest = c_string cs in if c == 0 then [] else c ∷ rest

abbrev keep_unless_blank : ℕ → Text → Text
keep_unless_blank c [] = if is_space c then [] else c ∷ []
keep_unless_blank c (d ∷ ds) = c ∷ d ∷ ds

-- `rtrim_inplace`
abbrev pub rtrim : Text → Text
rtrim [] = []
rtrim (c ∷ cs) = keep_unless_blank c (rtrim cs)

abbrev pub ltrim : Text → Text
ltrim [] = []
ltrim (c ∷ cs) = let rest = ltrim cs in if is_space c then rest else c ∷ cs

-- `strncasecmp` with a prefix: the text behind it
abbrev pub after_prefix : Text → Text → Option Text
after_prefix [] text = some text
after_prefix (p ∷ ps) [] = none
after_prefix (p ∷ ps) (c ∷ cs) =
    let rest = after_prefix ps cs in if to_lower p == to_lower c then rest else none

-- `if (*p == ':') ++p`
abbrev pub skip_colon : Text → Text
skip_colon [] = []
skip_colon (c ∷ cs) = if c == 58 then cs else c ∷ cs

-- The loop over the digits. `cl` is not negative when a round starts.
abbrev pub read_length : ℤ → Text → ℤ
read_length cl [] = cl
read_length (negsuc n) (c ∷ cs) = negsuc n
read_length (pos n) (c ∷ cs) =
    let next = wrap_int 63 (pos (n * 10 + (c - 48))) in
    let rest = read_length next cs in
    if is_digit c then (if ltb_ℤ next (pos 0) then negsuc 0 else rest) else pos n

module _ {W : Type 0} where
  -- the header behind its name
  unfoldable pub content_length_header : ℕ → Text → Wrapper W → Wrapper W × ℕ
  content_length_header total_size p req =
      let cl = read_length (pos 0) (ltrim (skip_colon p)) in
      let req' : Wrapper W = record req { content_length_found = true; content_length = cl } in
      if ltb_ℤ req.max_download_size cl && ltb_ℤ (pos 0) req.max_download_size
      then (req', 0)
      else (req', total_size)

  -- The result is the number of bytes taken; `allocated` tells whether `aml_calloc` succeeds.
  unfoldable pub header_callback : (allocated : Bool) → List ℕ → Wrapper W → Wrapper W × ℕ
  unfolding content_length_header
  header_callback false buffer req = (req, length buffer)
  header_callback true buffer req =
      elim (after_prefix text_content_length (rtrim (c_string buffer))) [
        | none ↦ (req, length buffer)
        | some p ↦ content_length_header (length buffer) p req
      ]
