-- ===== src/Routes/SafeHeaders.antt =====
-- `_safe_headers` (app/api/routes.py): the inbound headers that are kept.
use webhook_relay_api.Prelude.{
  String, Option, none, some, List, [], ◌∷◌, ◌==◌, if◌then◌else◌, truthy, eq_iff, ◌≡◌, refl, arith,
}
use webhook_relay_api.Event.{Headers}

-- `headers[key] = value`: a key keeps its place.
unfoldable pub put : String → String → Headers → Headers
put key value [] = (key, value) ∷ []
put key value ((k, v) ∷ rest) = if k == key then (k, value) ∷ rest else (k, v) ∷ put key value rest

-- `headers.get(key)`
unfoldable pub get : String → Headers → Option String
get key [] = none
get key ((k, v) ∷ rest) = if k == key then some v else get key rest

abbrev pub kept : List String
kept = "user-agent" ∷ "content-type" ∷ "x-request-id" ∷ []

-- `if value: headers[key] = value`
abbrev pub put_if : String → Option String → Headers → Headers
put_if key none found = found
put_if key (some value) found = if truthy value then put key value found else found

unfoldable pub copy_headers : (String → Option String) → List String → Headers → Headers
unfolding put
copy_headers header [] found = found
copy_headers header (key ∷ keys) found = copy_headers header keys (put_if key (header key) found)

unfoldable pub safe_headers : (String → Option String) → Headers
unfolding copy_headers
safe_headers header = copy_headers header kept []

-- A header that has been put is read back, and no other is changed.
pub get-put :
    (key j value : String) (h : Headers)
    → get j (put key value h) ≡ (if key == j then some value else get j h)
unfolding get put
get-put key j value [] = refl
get-put key j value ((k, v) ∷ rest) =
    ground (arith, eq_iff key j, eq_iff k key, eq_iff k j, get-put key j value rest)
