-- ===== src/Security.antt =====
-- app/core/security.py: body size, webhook signature, admin token.
pub mod Laws
use webhook_relay_api.Prelude.{
  ℕ, String, Bool, not, ◌&&◌, Option, none, some, List, ◌==◌, if◌then◌else◌, truthy, length,
}
use webhook_relay_api.Prelude.Int.{ℤ, pos, ltb_ℤ}
use webhook_relay_api.Result.{Result, ok, err, http_exception, type_error, ◌>>=◌, ◌>>◌, raise_if}
use webhook_relay_api.Text.{strip, is_ascii}
use webhook_relay_api.Platform.{Platform}

-- `hmac.compare_digest` on two texts, which raises `TypeError` unless both are ASCII.
unfoldable pub compare_digest : String → String → Result Bool
unfolding is_ascii
compare_digest a b = if is_ascii a && is_ascii b then ok (a == b) else err type_error

-- `len(raw_body) > max_body_bytes`
unfoldable pub enforce_body_size_limit : List ℕ → ℤ → Result (Unit {0})
enforce_body_size_limit raw_body max_body_bytes =
    raise_if (ltb_ℤ max_body_bytes (pos (length raw_body)))
      (http_exception 413 "Request body too large")

-- The branch of `verify_webhook_signature` in which a header is there.
unfoldable pub check_signature : String → String → Result (Unit {0})
unfolding compare_digest strip
check_signature expected header = do
  same ← compare_digest expected (strip header)
  raise_if (not same) (http_exception 401 "Invalid webhook signature")

unfoldable pub verify_webhook_signature :
    Platform → List ℕ → Option String → String → Result (Unit {0})
unfolding check_signature
verify_webhook_signature p raw_body none secret =
    raise_if (truthy secret) (http_exception 401 "Missing webhook signature")
verify_webhook_signature p raw_body (some header) secret =
    if not (truthy secret)
    then ok tt
    else if not (truthy header)
    then err (http_exception 401 "Missing webhook signature")
    else check_signature (p.hmac_hex secret raw_body) header

-- The branch of `require_admin_token` in which both tokens are there.
unfoldable pub check_token : String → String → Result (Unit {0})
unfolding compare_digest
check_token header expected = do
  same ← compare_digest header expected
  raise_if (not same) (http_exception 401 "Invalid admin token")

unfoldable pub require_admin_token : Option String → String → Result (Unit {0})
unfolding check_token
require_admin_token none expected =
    if not (truthy expected)
    then err (http_exception 403 "Admin endpoint disabled")
    else err (http_exception 401 "Invalid admin token")
require_admin_token (some header) expected =
    if not (truthy expected)
    then err (http_exception 403 "Admin endpoint disabled")
    else if not (truthy header)
    then err (http_exception 401 "Invalid admin token")
    else check_token header expected
