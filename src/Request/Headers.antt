-- ===== src/Request/Headers.antt =====
-- The header list of a request in src/curl_event_request.c, and the setters built on it. A header
-- line is the text of one node of the `curl_slist`, which `curl_slist_append` copies.
use a_curl_library.Base.{
  Bool, true, false, ◌&&◌, Option, none, some, List, [], ◌∷◌, ◌++◌, ◌==◌, if◌then◌else◌,
}
use a_curl_library.Request.{Text, Request}
use a_curl_library.Request.Literals.{
  text_user_agent, text_accept, text_accept_language, text_browser, text_english, text_accepted,
}

-- the "%s: %s" of `add_header_line`
abbrev pub header_line : Text → Text → Text
header_line name value = name ++ 58 ∷ 32 ∷ value

abbrev pub add_header_line : Text → Text → List Text → List Text
add_header_line name value lines = lines ++ header_line name value ∷ []

-- `strncmp(line, name, name_len) == 0 && line[name_len] == ':'`
abbrev pub is_header : Text → Text → Bool
is_header [] [] = false
is_header [] (c ∷ line) = c == 58
is_header (n ∷ name) [] = false
is_header (n ∷ name) (c ∷ line) = (n == c) && is_header name line

-- the loop of `curl_event_request_set_header`: the new list so far, and `found`
unfoldable pub copy_lines : Text → Text → List Text → List Text → Bool → List Text × Bool
copy_lines name value [] new_list found = (new_list, found)
copy_lines name value (line ∷ current) new_list found =
    let hit = is_header name line in
    copy_lines name value current
      (if hit then add_header_line name value new_list else new_list ++ line ∷ [])
      (if hit then true else found)

unfoldable pub set_line : Text → Text → List Text → List Text
unfolding copy_lines
set_line name value lines =
    let (new_list, found) = copy_lines name value lines [] false in
    if found then new_list else add_header_line name value new_list

abbrev or_default : Option Text → Text → Text
or_default none t = t
or_default (some t) u = t

module _ {W : Type 0} where
  -- `curl_event_request_add_header`
  unfoldable pub add_header : Text → Text → Request W → Request W
  add_header name value req = record req { headers = add_header_line name value req.headers }

  -- `curl_event_request_set_header`
  unfoldable pub set_header : Text → Text → Request W → Request W
  unfolding set_line
  set_header name value req = record req { headers = set_line name value req.headers }

  -- `curl_event_request_apply_browser_profile`
  unfoldable pub apply_browser_profile : Option Text → Option Text → Request W → Request W
  unfolding set_header
  apply_browser_profile ua_opt al_opt req =
      let r₁ = set_header text_user_agent (or_default ua_opt text_browser) req in
      let r₂ = set_header text_accept text_accepted r₁ in
      set_header text_accept_language (or_default al_opt text_english) r₂
