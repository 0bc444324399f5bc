-- ===== src/Routes/Request/Refusals.antt =====
-- Why a request is refused before anything is stored.
use webhook_relay_api.Prelude.{
  ℕ, String, ◌≡◌, refl, ◌⊎◌, inl, inr, Bool, true, false, not, ◌&&◌, none, some, List, arith,
  contains,
}
use webhook_relay_api.Prelude.Int.{ℤ}
use webhook_relay_api.Result.{
  Error, http_exception, unicode_decode_error, type_error, value_error, Result, ok, err, raise_if,
  ◌>>=◌,
}
use webhook_relay_api.Json.{Json, obj}
use webhook_relay_api.Text.{strip, is_ascii}
use webhook_relay_api.Platform.{Platform, too_many_digits, too_deep}
use webhook_relay_api.Config.{Settings}
use webhook_relay_api.Security.{enforce_body_size_limit, verify_webhook_signature}
use webhook_relay_api.Security.Laws.{verify_webhook_signature_errors}
use webhook_relay_api.Routes.Request.{
  Call, is_empty, check_request, recursion_error, as_object, parse_json, decode_body,
}

raised_lem : (test : Bool) (e x : Error) → raise_if test e ≡ err x → x ≡ e
raised_lem true e x h = cc
raised_lem false e x h = cc

size_lem :
    (body : List ℕ) (limit : ℤ) (x : Error)
    → enforce_body_size_limit body limit ≡ err x
    → x ≡ http_exception 413 "Request body too large"
unfolding enforce_body_size_limit
size_lem body limit x h = raised_lem _ _ x h

decode_lem :
    (p : Platform) (body : List ℕ) (x : Error)
    → decode_body p body ≡ err x
    → (x ≡ unicode_decode_error) × (p.decode_utf8 body ≡ none)
decode_lem p body x h = ground arith

decoded_lem :
    (p : Platform) (body : List ℕ) (text : String)
    → decode_body p body ≡ ok text
    → p.decode_utf8 body ≡ some text
decoded_lem p body text h = ground arith

parse_lem :
    (p : Platform) (text : String) (x : Error)
    → parse_json p text ≡ err x
    → (x ≡ http_exception 422 "Invalid JSON body")
      ⊎ (((x ≡ value_error) × (p.json_loads text ≡ too_many_digits))
          ⊎ ((x ≡ recursion_error) × (p.json_loads text ≡ too_deep)))
parse_lem p text x h = ground arith

object_lem :
    (value : Json) (x : Error)
    → as_object value ≡ err x
    → x ≡ http_exception 422 "Payload must be a JSON object"
object_lem (obj fields) x h = cc
object_lem _ x h = cc

module _ (p : Platform) (settings : Settings) (call : Call) where
  -- The refusals with a status of their own, and the exceptions that no check turns into one.
  pub data Refusal (e : Error) : Type 0 where
    not_found : e ≡ http_exception 404 "Not found" → Refusal e
    too_large : e ≡ http_exception 413 "Request body too large" → Refusal e
    unsigned : e ≡ http_exception 401 "Missing webhook signature" → Refusal e
    missigned : e ≡ http_exception 401 "Invalid webhook signature" → Refusal e
    bad_json : e ≡ http_exception 422 "Invalid JSON body" → Refusal e
    no_object : e ≡ http_exception 422 "Payload must be a JSON object" → Refusal e
    bad_utf8 : e ≡ unicode_decode_error → p.decode_utf8 call.body ≡ none → Refusal e
    long_number :
        (text : String)
        → e ≡ value_error
        → p.decode_utf8 call.body ≡ some text
        → p.json_loads text ≡ too_many_digits
        → Refusal e
    deep_nesting :
        (text : String)
        → e ≡ recursion_error
        → p.decode_utf8 call.body ≡ some text
        → p.json_loads text ≡ too_deep
        → Refusal e
    not_ascii :
        (h : String)
        → e ≡ type_error
        → call.header "X-Webhook-Signature" ≡ some h
        → ((is_ascii (p.hmac_hex settings.webhook_secret call.body) ≡ false)
            ⊎ (is_ascii (strip h) ≡ false))
        → Refusal e

  signature-Refusal :
      (e : Error)
      → verify_webhook_signature p call.body
          (call.header "X-Webhook-Signature")
          settings.webhook_secret
        ≡ err e
      → Refusal e
  signature-Refusal e h =
      elim (verify_webhook_signature_errors p call.body (call.header "X-Webhook-Signature")
        settings.webhook_secret e h) [
          | inl missing ↦ unsigned missing
          | inr (inl invalid) ↦ missigned invalid
          | inr (inr (text, raises, there, odd)) ↦ not_ascii text raises there odd
        ]

  json-Refusal :
      (e : Error) (text : String)
      → p.decode_utf8 call.body ≡ some text
      → ((e ≡ http_exception 422 "Invalid JSON body")
          ⊎ (((e ≡ value_error) × (p.json_loads text ≡ too_many_digits))
              ⊎ ((e ≡ recursion_error) × (p.json_loads text ≡ too_deep))))
      → Refusal e
  json-Refusal e text read (inl broken) = bad_json broken
  json-Refusal e text read (inr (inl (raises, long))) = long_number text raises read long
  json-Refusal e text read (inr (inr (raises, deep))) = deep_nesting text raises read deep

  step-Refusal :
      {A B : Type 0} {e : Error} (m : Result A) (f : A → Result B)
      → (m >>= f) ≡ err e
      → (m ≡ err e → Refusal e)
      → ((a : A) → m ≡ ok a → f a ≡ err e → Refusal e)
      → Refusal e
  step-Refusal (ok a) f h first rest = rest a refl h
  step-Refusal (err x) f h first rest = first (cc)

  -- Every exception of the checks is one of these.
  pub check_request-Refusal : (e : Error) → check_request p settings call ≡ err e → Refusal e
  unfolding check_request
  check_request-Refusal e h =
      step-Refusal
        (raise_if
          (not (is_empty settings.allowed_sources)
            && not (contains settings.allowed_sources call.source))
          (http_exception 404 "Not found"))
        _ h (λ unknown. not_found (raised_lem _ _ e unknown))
        λ _ _ h1.
          step-Refusal (enforce_body_size_limit call.body settings.max_body_bytes) _ h1
            (λ large. too_large (size_lem _ _ e large))
            λ _ _ h2.
              step-Refusal
                (verify_webhook_signature p call.body (call.header "X-Webhook-Signature")
                  settings.webhook_secret)
                _ h2 (λ signature. signature-Refusal e signature)
                λ _ _ h3.
                  step-Refusal (decode_body p call.body) _ h3
                    (λ odd.
                      let (raises, there) = decode_lem p call.body e odd in bad_utf8 raises there)
                    λ text read h4.
                      step-Refusal (parse_json p text) _ h4
                        (λ broken.
                          json-Refusal e text (decoded_lem p call.body text read)
                            (parse_lem p text e broken))
                        λ value _ h5. no_object (object_lem value e h5)
