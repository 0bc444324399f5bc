-- ===== src/Platform.antt =====
-- What the program calls and does not implement: Unicode lower case, SHA-256, the decoders of
-- UTF-8 and JSON, URL and address parsing, name resolution. Each is a function of its input.
use webhook_relay_api.Prelude.{ℕ, String, Bool, Option, List}
use webhook_relay_api.Prelude.Int.{ℤ}
use webhook_relay_api.Datetime.{Datetime}
use webhook_relay_api.Json.{Json}

-- `urllib.parse.urlparse`: the scheme, and the host where there is one.
pub record ParsedUrl : Type 0 where
  pub scheme : String
  pub hostname : Option String

-- The properties of an `ipaddress` object that `_BLOCKED_IP_FLAGS` names.
pub data IpFlag : Type 0 where
  is_private is_loopback is_link_local is_reserved is_multicast is_unspecified : IpFlag

-- An `ipaddress` object answers each of them.
abbrev pub IpAddress : Type 0
IpAddress = IpFlag → Bool

-- `loop.getaddrinfo`: for each record its address `info[4][0]`, or `none` where `info[4]` is empty;
-- `socket.gaierror` with its text; or another exception, by its name.
pub data Resolution : Type 0 where
  records : List (Option String) → Resolution
  gaierror : String → Resolution
  resolver_error : String → Resolution

-- What `json.loads` does with a text: it returns the value, or raises JSONDecodeError, ValueError (for
-- an integer of more digits than `int` takes) or RecursionError (for deep nesting).
pub data Loaded : Type 0 where
  loaded : Json → Loaded
  malformed too_many_digits too_deep : Loaded

pub record Platform : Type 0 where
  -- `str.lower`, `str.upper`
  pub lower : String → String
  pub upper : String → String
  -- `str(n)`
  pub show : ℕ → String
  -- `int(text)`; `none` stands for `ValueError`
  pub int_of : String → Option ℤ
  -- `hmac.new(secret.encode("utf-8"), body, hashlib.sha256).hexdigest()`
  pub hmac_hex : String → List ℕ → String
  -- `raw.decode("utf-8")`; `none` stands for `UnicodeDecodeError`
  pub decode_utf8 : List ℕ → Option String
  -- `json.loads`
  pub json_loads : String → Loaded
  -- `text.encode("utf-8")`, `json.dumps`, `str(value)`
  pub encode_utf8 : String → List ℕ
  pub json_dumps : Json → String
  pub show_json : Json → String
  -- `base64.urlsafe_b64encode(...).decode("ascii")`
  pub b64encode : List ℕ → String
  -- `base64.urlsafe_b64decode(text.encode("ascii"))`; `none` stands for any exception
  pub b64decode : String → Option (List ℕ)
  -- `datetime.fromisoformat`; `none` stands for `ValueError`
  pub fromisoformat : String → Option Datetime
  -- `value.isoformat()`
  pub isoformat : Datetime → String
  -- `none` stands for `ValueError`
  pub urlparse : String → Option ParsedUrl
  pub ip_address : String → Option IpAddress
  pub getaddrinfo : String → Resolution
