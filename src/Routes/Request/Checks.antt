-- ===== src/Routes/Request/Checks.antt =====
-- When a webhook request is accepted, and in which order it is refused.
use webhook_relay_api.Prelude.{
  ℕ, ◌+◌, ◌≤◌, String, ◌≡◌, refl, ◌↔◌, ◌⊎◌, not, ◌&&◌, none, some, List, [], ◌∷◌, arith, IsIn,
  contains, contains_iff, length,
}
use webhook_relay_api.Prelude.Int.{ℤ, pos_part, neg_part}
use webhook_relay_api.Result.{ok, err, raise_if, http_exception, unicode_decode_error, >>=-eq-ok}
use webhook_relay_api.Json.{Json, obj, Fields}
use webhook_relay_api.Platform.{Platform, loaded}
use webhook_relay_api.Config.{Settings}
use webhook_relay_api.Security.{enforce_body_size_limit, verify_webhook_signature}
use webhook_relay_api.Relay.Preflight.{is_empty}
use webhook_relay_api.Routes.Request.{Call, check_request, as_object, parse_json, decode_body}

source_ok_iff :
    (allowed : List String) (source : String)
    → (raise_if
          (not (is_empty allowed) && not (contains allowed source))
          (http_exception 404 "Not found")
        ≡ ok tt)
      ↔ ((allowed ≡ []) ⊎ IsIn source allowed)
source_ok_iff [] source = ground arith
source_ok_iff (a ∷ allowed) source = ground (arith, contains_iff (a ∷ allowed) source)

size_ok_iff :
    (body : List ℕ) (limit : ℤ)
    → (enforce_body_size_limit body limit ≡ ok tt) ↔ (length body + neg_part limit ≤ pos_part limit)
unfolding enforce_body_size_limit
size_ok_iff body limit = ground arith

decode_body-eq-ok :
    (p : Platform) (body : List ℕ) (text : String)
    → decode_body p body ≡ ok text
    → p.decode_utf8 body ≡ some text
decode_body-eq-ok p body text h = ground arith

parse_json-eq-ok :
    (p : Platform) (text : String) (value : Json) (payload : Fields)
    → parse_json p text ≡ ok value
    → as_object value ≡ ok payload
    → p.json_loads text ≡ loaded (obj payload)
parse_json-eq-ok p text (obj fields) payload h k = ground arith
parse_json-eq-ok p text _ payload h k = cc

module _ (p : Platform) (settings : Settings) (call : Call) where
  -- What is required of a request.
  pub record IsAccepted (payload : Fields) : Type 0 where
    pub source_allowed : (settings.allowed_sources ≡ []) ⊎ IsIn call.source settings.allowed_sources
    pub small :
        length call.body + neg_part settings.max_body_bytes ≤ pos_part settings.max_body_bytes
    pub signed :
        verify_webhook_signature p call.body
          (call.header "X-Webhook-Signature")
          settings.webhook_secret
        ≡ ok tt
    pub text : String
    pub decoded : p.decode_utf8 call.body ≡ some text
    pub parsed : p.json_loads text ≡ loaded (obj payload)

  IsAccepted-of_ok :
      (payload : Fields) → check_request p settings call ≡ ok payload → IsAccepted payload
  unfolding check_request
  IsAccepted-of_ok payload h =
      let (_, known, h1) = >>=-eq-ok _ _ h in
      let (_, small, h2) = >>=-eq-ok _ _ h1 in
      let (_, signed, h3) = >>=-eq-ok _ _ h2 in
      let (text, decoded, h4) = >>=-eq-ok _ _ h3 in
      let (value, parsed, h5) = >>=-eq-ok _ _ h4 in
      record {
        source_allowed = (source_ok_iff settings.allowed_sources call.source).0 known;
        small = (size_ok_iff call.body settings.max_body_bytes).0 small;
        signed = signed;
        text = text;
        decoded = decode_body-eq-ok p call.body text decoded;
        parsed = parse_json-eq-ok p text value payload parsed h5;
      }

  ok_of_accepted :
      (payload : Fields) → IsAccepted payload → check_request p settings call ≡ ok payload
  unfolding check_request
  ok_of_accepted payload a =
      rw ((source_ok_iff settings.allowed_sources call.source).1 a.source_allowed) (
        rw ((size_ok_iff call.body settings.max_body_bytes).1 a.small)
          (rw a.signed (rw (a.decoded, decode_body) (rw (a.parsed, parse_json)))))

  -- A request is accepted exactly if its source is allowed, its body is not too large, its signature
  -- verifies, and its body is UTF-8 and JSON text of an object, which is the payload.
  pub check_request-ok_iff :
      (payload : Fields) → (check_request p settings call ≡ ok payload) ↔ IsAccepted payload
  check_request-ok_iff payload = (IsAccepted-of_ok payload, ok_of_accepted payload)

  -- A body that is not UTF-8, in a request that passes the checks before, is not refused with 422:
  -- the decoder's exception leaves the handler.
  pub check_request_bad_utf8 :
      ((settings.allowed_sources ≡ []) ⊎ IsIn call.source settings.allowed_sources)
      → length call.body + neg_part settings.max_body_bytes ≤ pos_part settings.max_body_bytes
      → verify_webhook_signature p call.body
          (call.header "X-Webhook-Signature")
          settings.webhook_secret
        ≡ ok tt
      → p.decode_utf8 call.body ≡ none
      → check_request p settings call ≡ err unicode_decode_error
  unfolding check_request
  check_request_bad_utf8 known small signed bad =
      rw ((source_ok_iff settings.allowed_sources call.source).1 known) (
        rw ((size_ok_iff call.body settings.max_body_bytes).1 small)
          (rw signed (rw (bad, decode_body) refl)))
