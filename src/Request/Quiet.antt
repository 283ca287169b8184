-- ===== src/Request/Quiet.antt =====
-- Tests on the options of a handle that hold of none of those that depend on the method, the headers
-- and the times.
use a_curl_library.Base.{
  ◌≡◌, refl, ◌∙◌, Bool, true, false, ◌||◌, Option, none, some, List, [], ◌∷◌, ◌++◌, ℤ, pos, ltb_ℤ,
  arith, if◌then◌else◌, Bool-cases, inl, inr,
}
use a_curl_library.Request.{Text, Request}
use a_curl_library.Request.Setup.{
  Setopt, or_implied, opt_post, opt_upload, opt_post_fields, opt_custom_request, opt_http_header,
  opt_connect_timeout, opt_timeout, opt_low_speed_limit, opt_low_speed_time, common_options,
  header_option, body_option, same_text, opt_write_thunk, opt_header_callback, opt_http_version_3,
  method_options, positive_option,
}
use a_curl_library.Request.Literals.{text_post, text_put, text_delete, text_patch}

unfoldable pub is_write_thunk : Setopt → Bool
is_write_thunk opt_write_thunk = true
is_write_thunk _ = false

unfoldable pub is_header_callback : Setopt → Bool
is_header_callback opt_header_callback = true
is_header_callback _ = false

unfoldable pub is_http_version_3 : Setopt → Bool
is_http_version_3 opt_http_version_3 = true
is_http_version_3 _ = false

abbrev pub any : (Setopt → Bool) → List Setopt → Bool
any f [] = false
any f (o ∷ os) = f o || any f os

pub any-append :
    (f : Setopt → Bool) (xs ys : List Setopt) → any f (xs ++ ys) ≡ (any f xs || any f ys)
any-append f [] ys = refl
any-append f (x ∷ xs) ys = ground (arith, any-append f xs ys)

-- A test that holds of none of the options that depend on the method, the headers and the times.
pub record IsQuiet (f : Setopt → Bool) : Type 0 where
  pub plain : (f opt_post ≡ false) × (f opt_upload ≡ false)
  pub fields : (t : Text) → f (opt_post_fields t) ≡ false
  pub custom : (t : Text) → f (opt_custom_request t) ≡ false
  pub headers : (hs : List Text) → f (opt_http_header hs) ≡ false
  pub connect : (n : ℤ) → f (opt_connect_timeout n) ≡ false
  pub transfer : (n : ℤ) → f (opt_timeout n) ≡ false
  pub low_limit : (n : ℤ) → f (opt_low_speed_limit n) ≡ false
  pub low_time : (n : ℤ) → f (opt_low_speed_time n) ≡ false

pub write_thunk-IsQuiet : IsQuiet is_write_thunk
unfolding is_write_thunk
write_thunk-IsQuiet = record {
  plain = (refl, refl);
  fields = λ t. refl;
  custom = λ t. refl;
  headers = λ hs. refl;
  connect = λ n. refl;
  transfer = λ n. refl;
  low_limit = λ n. refl;
  low_time = λ n. refl;
}

pub header_callback-IsQuiet : IsQuiet is_header_callback
unfolding is_header_callback
header_callback-IsQuiet = record {
  plain = (refl, refl);
  fields = λ t. refl;
  custom = λ t. refl;
  headers = λ hs. refl;
  connect = λ n. refl;
  transfer = λ n. refl;
  low_limit = λ n. refl;
  low_time = λ n. refl;
}

pub http_version_3-IsQuiet : IsQuiet is_http_version_3
unfolding is_http_version_3
http_version_3-IsQuiet = record {
  plain = (refl, refl);
  fields = λ t. refl;
  custom = λ t. refl;
  headers = λ hs. refl;
  connect = λ n. refl;
  transfer = λ n. refl;
  low_limit = λ n. refl;
  low_time = λ n. refl;
}

append-quiet :
    (f : Setopt → Bool) (xs ys : List Setopt)
    → any f xs ≡ false
    → any f ys ≡ false
    → any f (xs ++ ys) ≡ false
append-quiet f xs ys h k = any-append f xs ys ∙ rw h k

choice-quiet :
    (f : Setopt → Bool) (b : Bool) (xs ys : List Setopt)
    → any f xs ≡ false
    → any f ys ≡ false
    → any f (if b then xs else ys) ≡ false
choice-quiet f true xs ys h k = h
choice-quiet f false xs ys h k = k

positive-quiet :
    (f : Setopt → Bool) (option : ℤ → Setopt) (n : ℤ)
    → ((m : ℤ) → f (option m) ≡ false)
    → any f (positive_option option n) ≡ false
positive-quiet f option n h = elim (Bool-cases (ltb_ℤ (pos 0) n)) [
  | inl e ↦ rw (e, h n) refl
  | inr e ↦ rw e refl
]

body-quiet : (f : Setopt → Bool) (body : Option Text) → IsQuiet f → any f (body_option body) ≡ false
body-quiet f none h = refl
body-quiet f (some body) h = rw (h.fields body) refl

method-quiet :
    (f : Setopt → Bool) (method : Text) (body : Option Text)
    → IsQuiet f
    → any f (method_options method body) ≡ false
method-quiet f method body h =
    let post : any f (opt_post ∷ body_option body) ≡ false = rw (h.plain.0) (body-quiet f body h) in
    let upload : any f (opt_upload ∷ body_option body) ≡ false =
      rw (h.plain.1) (body-quiet f body h) in
    let patch : any f (opt_custom_request text_patch ∷ body_option body) ≡ false =
      rw (h.custom text_patch) (body-quiet f body h) in
    let del : any f (opt_custom_request text_delete ∷ []) ≡ false =
      rw (h.custom text_delete) refl in
    choice-quiet f (same_text method text_post) _ _ post (
      choice-quiet f (same_text method text_put) _ _ upload (
        choice-quiet f (same_text method text_delete) _ _ del
          (choice-quiet f (same_text method text_patch) _ _ patch refl)))

header-quiet : (f : Setopt → Bool) (hs : List Text) → IsQuiet f → any f (header_option hs) ≡ false
header-quiet f [] h = refl
header-quiet f (x ∷ hs) h = rw (h.headers (x ∷ hs)) refl

module _ {W : Type 0} where
  pub common-quiet :
      (f : Setopt → Bool) (req : Request W) → IsQuiet f → any f (common_options req) ≡ false
  unfolding common_options
  common-quiet f req h =
      append-quiet f _ _ (method-quiet f (or_implied req.method req.post_data) req.post_data h) (
        append-quiet f _ _ (header-quiet f req.headers h) (
          append-quiet f _ _ (positive-quiet f opt_connect_timeout req.connect_timeout h.connect) (
            append-quiet f _ _ (positive-quiet f opt_timeout req.transfer_timeout h.transfer) (
              append-quiet f _ _
                (positive-quiet f opt_low_speed_limit req.low_speed_limit h.low_limit)
                (positive-quiet f opt_low_speed_time req.low_speed_time h.low_time)))))
