-- ===== src/Routes/Request/Kept.antt =====
-- Which headers of a request are stored and relayed.
use webhook_relay_api.Prelude.{
  String, ◌≡◌, refl, ap, ◌∙◌, Bool, true, false, ◌&&◌, ◌||◌, Option, none, some, List, [], ◌∷◌,
  ◌==◌, if◌then◌else◌, truthy?, contains, eq_iff, arith, Bool-cases, inl, inr,
}
use webhook_relay_api.Event.{Headers}
use webhook_relay_api.Routes.SafeHeaders.{get, put_if, kept, copy_headers, safe_headers, get-put}
use webhook_relay_api.Routes.Request.{Call, request_id_of, headers_of}

get-put_if :
    (key j : String) (value : Option String) (found : Headers)
    → get j (put_if key value found) ≡ (if truthy? value && key == j then value else get j found)
get-put_if key j none found = refl
get-put_if key j (some value) found = ground (arith, get-put key j value found)

get-copy_headers :
    (header : String → Option String) (keys : List String) (j : String) (found : Headers)
    → get j (copy_headers header keys found)
      ≡ (if contains keys j && truthy? (header j) then header j else get j found)
unfolding copy_headers
get-copy_headers header [] j found = refl
get-copy_headers header (key ∷ keys) j found =
    let rest = get-copy_headers header keys j (put_if key (header key) found) in
    let one = get-put_if key j (header key) found in
    elim (Bool-cases (key == j)) [
      | inl same ↦
          let equal : key ≡ j = (eq_iff key j).0 same in
          let value : header key ≡ header j = ap header equal in
          let full : truthy? (header key) ≡ truthy? (header j) = ap truthy? value in
          ground (arith, rest, one, same, value, full)
      | inr apart ↦ ground (arith, rest, one, apart)
    ]

id_first :
    (id agent type full : Bool) {found : Option String} (given value : Option String)
    → found ≡ (if (agent || (type || (id || false))) && full then value else none)
    → (if id then given else found)
      ≡ (if id then given else if (agent || (type || false)) && full then value else none)
id_first true agent type full given value h = refl
id_first false true type full given value h = h
id_first false false true full given value h = h
id_first false false false full given value h = h

-- The headers that are stored and relayed: the request's id, and of the request's own headers only
-- the user agent and the content type, where they are not empty.
pub get-headers_of :
    (call : Call) (j : String)
    → get j (headers_of call) ≡ (
        if "x-request-id" == j
        then some (request_id_of call)
        else if contains ("user-agent" ∷ "content-type" ∷ []) j && truthy? (call.header j)
        then call.header j
        else none)
unfolding safe_headers get
get-headers_of call j =
    let copied = get-copy_headers call.header kept j [] in
    let replaced = get-put "x-request-id" j (request_id_of call) (safe_headers call.header) in
    replaced
    ∙ id_first ("x-request-id" == j) ("user-agent" == j) ("content-type" == j)
        (truthy? (call.header j)) _ _ copied
