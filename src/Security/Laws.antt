-- ===== src/Security/Laws.antt =====
-- When a request passes the checks of app/core/security.py, and what a refusal says.
use webhook_relay_api.Prelude.{
  Bool-cases, inl, inr, false, refl, ℕ, String, ◌≡◌, ◌↔◌, true, Option, none, some, List, arith,
  truthy, eq_iff, ◌⊎◌,
}
use webhook_relay_api.Result.{ok, err, type_error, http_exception, Error}
use webhook_relay_api.Text.{strip, is_ascii}
use webhook_relay_api.Platform.{Platform}
use webhook_relay_api.Security.{verify_webhook_signature, require_admin_token}

-- With a secret set, a request passes exactly if it has a signature header that is not empty and
-- that, stripped, is the HMAC of its body under the secret, an ASCII text.
pub verify_webhook_signature_iff :
    (p : Platform) (body : List ℕ) (header : Option String) (secret : String)
    → truthy secret ≡ true
    → (verify_webhook_signature p body header secret ≡ ok tt) ↔ (
        (h : String) × (header ≡ some h)
        × (truthy h ≡ true)
        × (is_ascii (p.hmac_hex secret body) ≡ true)
        × (strip h ≡ p.hmac_hex secret body))
unfolding verify_webhook_signature
verify_webhook_signature_iff p body none secret t = (λ h. ground arith, λ h. ground arith)
verify_webhook_signature_iff p body (some h) secret t =
    let same = eq_iff (p.hmac_hex secret body) (strip h) in
    (
      λ e. (h, refl, ground (arith, same), ground (arith, same), ground (arith, same)),
      λ e. ground (arith, same),
    )

-- With a secret set, a signature header that, stripped, holds a character outside ASCII is not
-- refused with 401: the comparison raises `TypeError`.
pub verify_webhook_signature_non_ascii :
    (p : Platform) (body : List ℕ) (h secret : String)
    → truthy secret ≡ true
    → truthy h ≡ true
    → is_ascii (strip h) ≡ false
    → verify_webhook_signature p body (some h) secret ≡ err type_error
unfolding verify_webhook_signature
verify_webhook_signature_non_ascii p body h secret s t n = ground arith

-- The admin token passes exactly if one is configured and the header is equal to it, both ASCII.
pub require_admin_token_iff :
    (header : Option String) (expected : String)
    → (require_admin_token header expected ≡ ok tt)
      ↔ ((truthy expected ≡ true) × (is_ascii expected ≡ true) × (header ≡ some expected))
unfolding require_admin_token
require_admin_token_iff none expected = (λ e. ground arith, λ e. ground arith)
require_admin_token_iff (some h) expected =
    (λ e. ground (arith, eq_iff h expected), λ e. ground (arith, eq_iff h expected))

-- Every refusal of the admin token: 403 exactly if none is configured, else 401, or `TypeError` if
-- the header and the token are not both ASCII.
pub require_admin_token_errors :
    (header : Option String) (expected : String) (e : Error)
    → require_admin_token header expected ≡ err e
    → ((truthy expected ≡ false) × (e ≡ http_exception 403 "Admin endpoint disabled"))
      ⊎ ((truthy expected ≡ true) × (e ≡ http_exception 401 "Invalid admin token"))
      ⊎ ((truthy expected ≡ true) × (e ≡ type_error))
unfolding require_admin_token
require_admin_token_errors none expected e h = ground arith
require_admin_token_errors (some t) expected e h = ground arith

-- Why a signature is refused: it is missing or another one, or the comparison raises because one of
-- the two texts is not ASCII.
pub verify_webhook_signature_errors :
    (p : Platform) (body : List ℕ) (header : Option String) (secret : String) (e : Error)
    → verify_webhook_signature p body header secret ≡ err e
    → (e ≡ http_exception 401 "Missing webhook signature")
      ⊎ (e ≡ http_exception 401 "Invalid webhook signature")
      ⊎ ((h : String) × (e ≡ type_error)
          × (header ≡ some h)
          × ((is_ascii (p.hmac_hex secret body) ≡ false) ⊎ (is_ascii (strip h) ≡ false)))
unfolding verify_webhook_signature
verify_webhook_signature_errors p body none secret e h = inl (ground arith)
verify_webhook_signature_errors p body (some header) secret e h =
    elim (Bool-cases (truthy header)) [
      | inr empty ↦ inl (ground arith)
      | inl set ↦ elim (Bool-cases (is_ascii (p.hmac_hex secret body))) [
        | inr odd ↦ inr (inr (header, ground arith, refl, inl odd))
        | inl plain ↦ elim (Bool-cases (is_ascii (strip header))) [
          | inr odd ↦ inr (inr (header, ground arith, refl, inr odd))
          | inl plain' ↦ inr (inl (ground arith))
        ]
      ]
    ]
