-- ===== src/Examples/World.antt =====
-- A platform, settings, requests, a network and states of the process.
use webhook_relay_api.Prelude.{
  ℕ, String, true, false, Option, none, some, List, [], ◌∷◌, ◌==◌, eqb, if◌then◌else◌, refl,
}
use webhook_relay_api.Prelude.Int.{pos}
use webhook_relay_api.Datetime.{naive, aware, utc}
use webhook_relay_api.Json.{end}
use webhook_relay_api.Platform.{Platform, IpAddress, is_loopback, records}
use webhook_relay_api.Config.{Settings}
use webhook_relay_api.Event.{Event, no_relay}
use webhook_relay_api.App.{App, Dispatcher, Metrics}
use webhook_relay_api.Relay.Attempts.{Network, response, timeout}
use webhook_relay_api.Routes.Request.{Call}
use webhook_relay_api.Routes.Cursor.{IsCodec}
use webhook_relay_api.Examples.Codec.{
  encode_utf8, decode_utf8, decode_utf8-encode_utf8, b64encode, b64decode, b64decode-b64encode,
  isoformat, tallied, tallied-tally, json_dumps, json_loads, json_loads-pack, truthy-cursor,
}

abbrev pub loopback : IpAddress
loopback is_loopback = true
loopback _ = false

abbrev pub public : IpAddress
public _ = false

-- Two literal addresses; every name resolves to the public one.
abbrev pub read_ip : String → Option IpAddress
read_ip text =
    if text == "8.8.8.8" then some public else if text == "127.0.0.1" then some loopback else none

-- The HMAC is the secret itself, and a URL is the host of an https target.
abbrev pub platform : Platform
platform = record {
  lower = λ text. text;
  upper = λ text. text;
  show = λ n. "n";
  int_of = λ text. some (pos 8);
  hmac_hex = λ secret body. secret;
  decode_utf8 = decode_utf8;
  json_loads = json_loads;
  encode_utf8 = encode_utf8;
  json_dumps = json_dumps;
  show_json = λ value. "value";
  b64encode = b64encode;
  b64decode = b64decode;
  fromisoformat = λ text. some (aware (tallied text) utc);
  isoformat = isoformat;
  urlparse = λ url. some (record { scheme = "https"; hostname = some url });
  ip_address = read_ip;
  getaddrinfo = λ host. records (some "8.8.8.8" ∷ []);
}

pub platform-IsCodec : IsCodec platform
platform-IsCodec = record {
  base64_inverse = b64decode-b64encode;
  utf8_inverse = decode_utf8-encode_utf8;
  json_inverse = json_loads-pack;
  cursor_truthy = truthy-cursor;
  iso_inverse = λ t. rw (tallied-tally t) refl;
}

abbrev pub settings : Settings
settings = record {
  app_host = "0.0.0.0";
  app_port = pos 8000;
  database_url = "sqlite:///./data/app.db";
  target_url = "example.org";
  log_level = "INFO";
  webhook_secret = "abc";
  max_body_bytes = pos 10;
  allowed_sources = "shop" ∷ [];
  relay_allow_hosts = "example.org" ∷ [];
  relay_allow_private_ips = false;
  relay_worker_concurrency = 1;
  relay_queue_size = 2;
  event_retention_days = some (pos 0);
  admin_token = "root";
}

-- A signed request with a key; its body is the text of an empty object.
abbrev pub header : String → Option String
header name =
    if name == "X-Webhook-Signature"
    then some " abc "
    else if name == "Idempotency-Key"
    then some "k1"
    else none

abbrev pub call : Call
call = record {
  source = "shop";
  body = 123 ∷ 125 ∷ [];
  header = header;
  context_id = "r1";
  fresh_request_id = "r2";
  fresh_event_id = "e9";
  now = 50;
}

abbrev pub row : String → ℕ → Option String → Event
row id wall key = record {
  id = id;
  source = "shop";
  received_at = naive wall;
  payload = end;
  headers = [];
  request_id = "r0";
  idempotency_key = key;
  relay = no_relay;
}

-- Rows that have the key of the request, and rows that have not.
abbrev pub known : List Event
known = row "e1" 10 (some "k1") ∷ row "e2" 20 none ∷ []

abbrev pub unknown : List Event
unknown = row "e1" 10 (some "k0") ∷ row "e2" 20 none ∷ []

abbrev pub no_metrics : Metrics
no_metrics = record {
  requests = λ method path status. 0;
  request_latencies = λ method path. 0;
  events_received = λ source. 0;
  relay_attempts = 0;
  relay_successes = 0;
  relay_latencies = 0;
}

abbrev pub idle : Dispatcher
idle = record { queue = []; maxsize = 2; workers = none ∷ [] }

abbrev pub app : List Event → App (List Event)
app rows = record {
  session = true;
  db = rows;
  client = true;
  dispatcher = some idle;
  metrics = no_metrics;
}

-- A server error, a timeout, and then a success; and nothing but timeouts.
abbrev pub recovering : Network
recovering = record {
  post = λ attempt.
      if eqb attempt 1 then response 500 else if eqb attempt 2 then timeout "" else response 204;
  now = λ attempt. aware attempt utc;
  jitter = λ attempt. 1000;
}

abbrev pub down : Network
down = record {
  post = λ attempt. timeout "slow";
  now = λ attempt. aware attempt utc;
  jitter = λ attempt. 1000;
}
