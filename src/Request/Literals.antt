-- ===== src/Request/Literals.antt =====
-- The string literals of src/curl_event_request.c, as bytes.
use a_curl_library.Base.{[], ◌∷◌}
use a_curl_library.Request.{Text}

-- POST
abbrev pub text_post : Text
text_post = 80 ∷ 79 ∷ 83 ∷ 84 ∷ []

-- GET
abbrev pub text_get : Text
text_get = 71 ∷ 69 ∷ 84 ∷ []

-- Content-Type
abbrev pub text_content_type : Text
text_content_type = 67 ∷ 111 ∷ 110 ∷ 116 ∷ 101 ∷ 110 ∷ 116 ∷ 45 ∷ 84 ∷ 121 ∷ 112 ∷ 101 ∷ []

-- application/json
abbrev pub text_application_json : Text
text_application_json =
    97 ∷ 112 ∷ 112 ∷ 108 ∷ 105 ∷ 99 ∷ 97 ∷ 116 ∷ 105 ∷ 111 ∷ 110 ∷ 47 ∷ 106 ∷ 115 ∷ 111 ∷ 110 ∷ []

-- {}
abbrev pub text_empty_object : Text
text_empty_object = 123 ∷ 125 ∷ []

-- User-Agent
abbrev pub text_user_agent : Text
text_user_agent = 85 ∷ 115 ∷ 101 ∷ 114 ∷ 45 ∷ 65 ∷ 103 ∷ 101 ∷ 110 ∷ 116 ∷ []

-- Accept
abbrev pub text_accept : Text
text_accept = 65 ∷ 99 ∷ 99 ∷ 101 ∷ 112 ∷ 116 ∷ []

-- Accept-Language
abbrev pub text_accept_language : Text
text_accept_language =
    65 ∷ 99 ∷ 99 ∷ 101 ∷ 112 ∷ 116 ∷ 45 ∷ 76 ∷ 97 ∷ 110 ∷ 103 ∷ 117 ∷ 97 ∷ 103 ∷ 101 ∷ []

-- Mozilla/5.0 (Macintosh; Intel Mac OS X 10_15_7) AppleWebKit/537.36 (KHTML, like Gecko) Chrome/124.0.0.0 Safari/537.36
abbrev pub text_browser : Text
text_browser =
    77 ∷ 111 ∷ 122 ∷ 105 ∷ 108 ∷ 108 ∷ 97 ∷ 47 ∷ 53 ∷ 46 ∷ 48 ∷ 32 ∷ 40 ∷ 77 ∷ 97 ∷ 99 ∷ 105 ∷ 110
    ∷ 116 ∷ 111 ∷ 115 ∷ 104 ∷ 59 ∷ 32 ∷ 73 ∷ 110 ∷ 116 ∷ 101 ∷ 108 ∷ 32 ∷ 77 ∷ 97 ∷ 99 ∷ 32 ∷ 79
    ∷ 83 ∷ 32 ∷ 88 ∷ 32 ∷ 49 ∷ 48 ∷ 95 ∷ 49 ∷ 53 ∷ 95 ∷ 55 ∷ 41 ∷ 32 ∷ 65 ∷ 112 ∷ 112 ∷ 108 ∷ 101
    ∷ 87 ∷ 101 ∷ 98 ∷ 75 ∷ 105 ∷ 116 ∷ 47 ∷ 53 ∷ 51 ∷ 55 ∷ 46 ∷ 51 ∷ 54 ∷ 32 ∷ 40 ∷ 75 ∷ 72 ∷ 84
    ∷ 77 ∷ 76 ∷ 44 ∷ 32 ∷ 108 ∷ 105 ∷ 107 ∷ 101 ∷ 32 ∷ 71 ∷ 101 ∷ 99 ∷ 107 ∷ 111 ∷ 41 ∷ 32 ∷ 67
    ∷ 104 ∷ 114 ∷ 111 ∷ 109 ∷ 101 ∷ 47 ∷ 49 ∷ 50 ∷ 52 ∷ 46 ∷ 48 ∷ 46 ∷ 48 ∷ 46 ∷ 48 ∷ 32 ∷ 83 ∷ 97
    ∷ 102 ∷ 97 ∷ 114 ∷ 105 ∷ 47 ∷ 53 ∷ 51 ∷ 55 ∷ 46 ∷ 51 ∷ 54 ∷ []

-- en-US,en;q=0.9
abbrev pub text_english : Text
text_english = 101 ∷ 110 ∷ 45 ∷ 85 ∷ 83 ∷ 44 ∷ 101 ∷ 110 ∷ 59 ∷ 113 ∷ 61 ∷ 48 ∷ 46 ∷ 57 ∷ []

-- text/html,application/xhtml+xml,application/xml;q=0.9,*/*;q=0.8
abbrev pub text_accepted : Text
text_accepted =
    116 ∷ 101 ∷ 120 ∷ 116 ∷ 47 ∷ 104 ∷ 116 ∷ 109 ∷ 108 ∷ 44 ∷ 97 ∷ 112 ∷ 112 ∷ 108 ∷ 105 ∷ 99 ∷ 97
    ∷ 116 ∷ 105 ∷ 111 ∷ 110 ∷ 47 ∷ 120 ∷ 104 ∷ 116 ∷ 109 ∷ 108 ∷ 43 ∷ 120 ∷ 109 ∷ 108 ∷ 44 ∷ 97
    ∷ 112 ∷ 112 ∷ 108 ∷ 105 ∷ 99 ∷ 97 ∷ 116 ∷ 105 ∷ 111 ∷ 110 ∷ 47 ∷ 120 ∷ 109 ∷ 108 ∷ 59 ∷ 113 ∷ 61
    ∷ 48 ∷ 46 ∷ 57 ∷ 44 ∷ 42 ∷ 47 ∷ 42 ∷ 59 ∷ 113 ∷ 61 ∷ 48 ∷ 46 ∷ 56 ∷ []

-- Content-Length
abbrev pub text_content_length : Text
text_content_length =
    67 ∷ 111 ∷ 110 ∷ 116 ∷ 101 ∷ 110 ∷ 116 ∷ 45 ∷ 76 ∷ 101 ∷ 110 ∷ 103 ∷ 116 ∷ 104 ∷ []

-- PUT
abbrev pub text_put : Text
text_put = 80 ∷ 85 ∷ 84 ∷ []

-- DELETE
abbrev pub text_delete : Text
text_delete = 68 ∷ 69 ∷ 76 ∷ 69 ∷ 84 ∷ 69 ∷ []

-- PATCH
abbrev pub text_patch : Text
text_patch = 80 ∷ 65 ∷ 84 ∷ 67 ∷ 72 ∷ []
