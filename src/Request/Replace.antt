-- ===== src/Request/Replace.antt =====
-- What `curl_event_request_set_header` does to the header list.
use mathlib.Core.List.{append_assoc, append-nil}
use a_curl_library.Base.{
  ℕ, ◌==◌, ◌≡◌, refl, ap, sym, ◌⊎◌, ◌∙◌, Bool, true, false, ◌||◌, List, [], ◌∷◌, ◌++◌, arith,
  if◌then◌else◌, All, Bool-cases, inl, inr, ==_iff,
}
use a_curl_library.Request.{Text}
use a_curl_library.Request.Headers.{header_line, add_header_line, is_header, copy_lines, set_line}

-- the lines with those of one name replaced
unfoldable pub replaced : Text → Text → List Text → List Text
replaced name value [] = []
replaced name value (l ∷ ls) =
    (if is_header name l then header_line name value else l) ∷ replaced name value ls

unfoldable pub has_header : Text → List Text → Bool
has_header name [] = false
has_header name (l ∷ ls) = is_header name l || has_header name ls

same_byte : (n : ℕ) → (n == n) ≡ true
same_byte n = (==_iff n n).1 refl

is_header-header_line : (name value : Text) → is_header name (header_line name value) ≡ true
is_header-header_line [] value = refl
is_header-header_line (n ∷ name) value = rw (same_byte n) (is_header-header_line name value)

or_true : (f : Bool) → (f || true) ≡ true
or_true true = refl
or_true false = refl

copy_lines-effect :
    (name value : Text) (ls acc : List Text) (f : Bool)
    → copy_lines name value ls acc f ≡ (acc ++ replaced name value ls, f || has_header name ls)
unfolding copy_lines replaced has_header
copy_lines-effect name value [] acc true = rw (append-nil acc) refl
copy_lines-effect name value [] acc false = rw (append-nil acc) refl
copy_lines-effect name value (l ∷ ls) acc f = elim (Bool-cases (is_header name l)) [
  | inl h ↦
      rw
        (
          h,
          copy_lines-effect name value ls (add_header_line name value acc) true,
          append_assoc acc (header_line name value ∷ []) (replaced name value ls),
          or_true f,
        )
        refl
  | inr h ↦
      rw
        (
          h,
          copy_lines-effect name value ls (acc ++ l ∷ []) f,
          append_assoc acc (l ∷ []) (replaced name value ls),
        )
        refl
]

pub set_line-effect :
    (name value : Text) (ls : List Text)
    → set_line name value ls ≡ (
        if has_header name ls
        then replaced name value ls
        else replaced name value ls ++ header_line name value ∷ [])
unfolding set_line
set_line-effect name value ls = rw (copy_lines-effect name value ls [] false) refl

replaced-has :
    (name value : Text) (ls : List Text)
    → has_header name (replaced name value ls) ≡ has_header name ls
unfolding replaced has_header
replaced-has name value [] = refl
replaced-has name value (l ∷ ls) =
    ground (arith, is_header-header_line name value, replaced-has name value ls)

replaced-twice :
    (name v w : Text) (ls : List Text) → replaced name w (replaced name v ls) ≡ replaced name w ls
unfolding replaced
replaced-twice name v w [] = refl
replaced-twice name v w (l ∷ ls) =
    ground (arith, is_header-header_line name v, replaced-twice name v w ls)

snoc-has :
    (name value : Text) (ls : List Text)
    → has_header name (ls ++ header_line name value ∷ []) ≡ true
unfolding has_header
snoc-has name value [] = rw (is_header-header_line name value) refl
snoc-has name value (l ∷ ls) = ground (arith, snoc-has name value ls)

snoc-replaced :
    (name v w : Text) (ls : List Text)
    → replaced name w (ls ++ header_line name v ∷ [])
      ≡ replaced name w ls ++ header_line name w ∷ []
unfolding replaced
snoc-replaced name v w [] = rw (is_header-header_line name v) refl
snoc-replaced name v w (l ∷ ls) = rw (snoc-replaced name v w ls) refl

-- A line that is the name, a colon, and any text.
pub record HasName (name line : Text) : Type 0 where
  pub value : Text
  pub split : line ≡ name ++ 58 ∷ value

HasName-is_header : (name line : Text) → is_header name line ≡ true → HasName name line
HasName-is_header [] [] h = cc h
HasName-is_header [] (c ∷ line) h = record {
  value = line;
  split = ap (λ x. x ∷ line) ((==_iff c 58).0 h);
}
HasName-is_header (n ∷ name) [] h = cc h
HasName-is_header (n ∷ name) (c ∷ line) h =
    let rest = HasName-is_header name line (ground (arith, h)) in
    let same : n ≡ c = (==_iff n c).0 (ground (arith, h)) in
    record {
      value = rest.value;
      split = ap (λ x. x ∷ line) (sym same) ∙ ap (λ x. n ∷ x) rest.split;
    }

is_header-named : (name value : Text) → is_header name (name ++ 58 ∷ value) ≡ true
is_header-named [] value = refl
is_header-named (n ∷ name) value = rw (same_byte n) (is_header-named name value)

is_header-HasName : (name line : Text) → HasName name line → is_header name line ≡ true
is_header-HasName name line h = ap (is_header name) h.split ∙ is_header-named name h.value

-- The new lines in the place of the old ones: those of the name have this value, and each other line
-- is as it was.
pub data Rewritten (name value : Text) : List Text → List Text → Type 0 where
  rewritten_none : Rewritten name value [] []
  rewritten_line :
      (l : Text) (ls ls' : List Text)
      → HasName name l
      → Rewritten name value ls ls'
      → Rewritten name value (l ∷ ls) (header_line name value ∷ ls')
  kept_line :
      (l : Text) (ls ls' : List Text)
      → ¬ HasName name l
      → Rewritten name value ls ls'
      → Rewritten name value (l ∷ ls) (l ∷ ls')

not_named : (name l : Text) → is_header name l ≡ false → ¬ HasName name l
not_named name l e h = cc (is_header-HasName name l h, e)

Rewritten-replaced :
    (name value : Text) (ls : List Text) → Rewritten name value ls (replaced name value ls)
unfolding replaced
Rewritten-replaced name value [] = rewritten_none
Rewritten-replaced name value (l ∷ ls) = elim (Bool-cases (is_header name l)) [
  | inl e ↦
      rw e (rewritten_line l ls _ (HasName-is_header name l e) (Rewritten-replaced name value ls))
  | inr e ↦ rw e (kept_line l ls _ (not_named name l e) (Rewritten-replaced name value ls))
]

All-unnamed :
    (name : Text) (ls : List Text) → has_header name ls ≡ false → All (λ l. ¬ HasName name l) ls
unfolding has_header
All-unnamed name [] h = tt
All-unnamed name (l ∷ ls) h =
    (not_named name l (ground (arith, h)), All-unnamed name ls (ground (arith, h)))

replaced-unnamed :
    (name value : Text) (ls : List Text) → has_header name ls ≡ false → replaced name value ls ≡ ls
unfolding replaced has_header
replaced-unnamed name value [] h = refl
replaced-unnamed name value (l ∷ ls) h = ground (arith, h, replaced-unnamed name value ls)

-- A line has a name if it is the name, a colon, and any text, byte for byte.
-- `curl_event_request_set_header` puts the new header in the place of each line of its name, and leaves
-- the lines of other names as they are and where they are; if there is no line of its name, it adds the
-- new header behind all the lines.
pub set_line_sets :
    (name value : Text) (ls : List Text)
    → let ls' = set_line name value ls in
      ((has_header name ls ≡ true) × Rewritten name value ls ls')
      ⊎ (All (λ l. ¬ HasName name l) ls × (ls' ≡ ls ++ header_line name value ∷ []))
set_line_sets name value ls = elim (Bool-cases (has_header name ls)) [
  | inl h ↦ inl (h, rw (set_line-effect name value ls, h) (Rewritten-replaced name value ls))
  | inr h ↦ inr (
    All-unnamed name ls h,
    set_line-effect name value ls
        ∙ rw h (ap (λ x. x ++ header_line name value ∷ []) (replaced-unnamed name value ls h)),
  )
]

-- Of two values that are set for one name, the last stays, as if the first had never been set.
pub set_line_last_wins :
    (name v w : Text) (ls : List Text) → set_line name w (set_line name v ls) ≡ set_line name w ls
set_line_last_wins name v w ls = elim (Bool-cases (has_header name ls)) [
  | inl h ↦
      rw
        (
          set_line-effect name v ls,
          set_line-effect name w ls,
          h,
          set_line-effect name w (replaced name v ls),
          replaced-has name v ls,
          replaced-twice name v w ls,
          h,
        )
        refl
  | inr h ↦
      rw
        (
          set_line-effect name v ls,
          set_line-effect name w ls,
          h,
          set_line-effect name w (replaced name v ls ++ header_line name v ∷ []),
          snoc-has name v (replaced name v ls),
          snoc-replaced name v w (replaced name v ls),
          replaced-twice name v w ls,
        )
        refl
]
