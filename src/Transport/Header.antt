-- ===== src/Transport/Header.antt =====
-- api/helpers.py: the texts of a response that the errors show, and the session cookie.
use keenetic_router_pro.Prelude.{
  String, if◌then◌else◌, Option, List, Bool, none, ◌==◌, ◌∷◌, [], some, eqb, ◌||◌,
}
use keenetic_router_pro.Text.{
  strip, lower, before, contains, join, split_words, take_chars, is_longer, includes, ◌<>◌,
}
use keenetic_router_pro.Transport.Http.{Response, Site, Error, api_error, auth_error, other_error}

-- `_response_summary(text)`.
unfoldable pub response_summary : Site → String → String
response_summary site text =
    let summary = join " " (split_words text) in
    if summary == ""
    then "<empty>"
    else let summary = site.redact summary in
      if is_longer summary 240 then take_chars 240 summary <> "..." else summary

-- `headers.get(name)` on a case-insensitive multidict: the first value.
unfoldable pub header : String → List (String × String) → Option String
header name [] = none
header name ((k, v) ∷ rest) = if lower k == lower name then some v else header name rest

-- `headers.getall(name, [])`.
unfoldable pub headers_of : String → List (String × String) → List String
headers_of name [] = []
headers_of name ((k, v) ∷ rest) =
    let found = headers_of name rest in if lower k == lower name then v ∷ found else found

-- The name and value of one Set-Cookie header, if it has any.
unfoldable pub cookie_pairs : List String → List String
cookie_pairs [] = []
cookie_pairs (raw_cookie ∷ rest) =
    let pairs = cookie_pairs rest in
    let cookie_kv = strip (before b';' raw_cookie) in
    if contains b'=' cookie_kv then cookie_kv ∷ pairs else pairs

-- `"; ".join(pairs) if pairs else None`.
abbrev joined_cookies : List String → Option String
joined_cookies [] = none
joined_cookies pairs = some (join "; " pairs)

-- `_cookie_header_from_response(resp)`.
unfoldable pub cookie_header_from_response : Response → Option String
cookie_header_from_response resp =
    joined_cookies (cookie_pairs (headers_of "Set-Cookie" resp.headers))

-- `_is_endpoint_missing(err)`.
unfoldable pub is_endpoint_missing : Error → Bool
is_endpoint_missing (api_error message (some status)) = eqb status 404
is_endpoint_missing (api_error message none) =
    includes "not found" (lower message) || includes "404" (lower message)
is_endpoint_missing (auth_error message) =
    includes "not found" (lower message) || includes "404" (lower message)
is_endpoint_missing (other_error message) =
    includes "not found" (lower message) || includes "404" (lower message)
