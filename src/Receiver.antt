-- ===== src/Receiver.antt =====
-- perf/receivers/receiver_server.py: the server that load tests relay to. Each request has a thread
-- of its own, so a POST takes its number in one step and is recorded in a later one.
pub mod Rates
pub mod Counting
use Prim.Native.String.{◌++◌ as concat}
use webhook_relay_api.Prelude.{
  ℕ, ◌+◌, ◌%◌, String, Bool, true, false, not, ◌&&◌, Option, none, some, List, [], ◌∷◌, ◌++◌, ◌==◌,
  eqb, take, length, if◌then◌else◌, ◌≡◌,
}
use webhook_relay_api.Prelude.Int.{ℤ, pos, negsuc}
use webhook_relay_api.Result.{Result, ok, err, value_error}
use webhook_relay_api.Text.{strip}
use webhook_relay_api.Json.{Json, str, int, obj, end, field}
use webhook_relay_api.Platform.{Platform}
use webhook_relay_api.App.{Exec, pure, lift, ◌>>=◌, ◌>>◌}
use webhook_relay_api.Config.{at_least_one}

-- `MODE` and `FAIL_EVERY`; `SLOW_MS` is a pause only.
pub record ReceiverSettings : Type 0 where
  pub mode : String
  pub fail_every : ℕ

-- `os.getenv("RECEIVER_MODE", "fast").strip().lower()`, `max(1, int(...))`
unfoldable pub receiver_settings : Platform → String → ℤ → ReceiverSettings
unfolding strip
receiver_settings p mode fail_every = record {
  mode = p.lower (strip mode);
  fail_every = at_least_one fail_every;
}

-- `_counter` by the next number that it gives, and `_metrics`.
pub record Counters : Type 0 where
  pub next_number : ℕ
  pub requests_total : ℕ
  pub requests_failed_total : ℕ

abbrev pub no_counts : Counters
no_counts = record { next_number = 1; requests_total = 0; requests_failed_total = 0 }

pub data Body : Type 0 where
  json : Json → Body
  text : String → Body

pub record Reply : Type 0 where
  pub status_code : ℕ
  pub body : Body

abbrev pub json_response : ℕ → Json → Reply
json_response status_code payload = record { status_code = status_code; body = json payload }

abbrev pub not_found_reply : Reply
not_found_reply = json_response 404 (obj (field "error" (str "not_found") end))

unfoldable pub record_request : Bool → Counters → Counters
record_request failed c = record c {
  requests_total = c.requests_total + 1;
  requests_failed_total = c.requests_failed_total + (if failed then 1 else 0);
}

-- The text of `/metrics`.
abbrev pub metrics_text : Platform → String → ℕ → ℕ → String
metrics_text p mode total failed = concat "# TYPE receiver_requests_total counter\n" (
    concat "receiver_requests_total{mode=\"" (
      concat mode (
        concat "\"} " (
          concat (p.show total) (
            concat "\n# TYPE receiver_requests_failed_total counter\n" (
              concat "receiver_requests_failed_total{mode=\""
                (concat mode (concat "\"} " (concat (p.show failed) "\n")))))))))

unfoldable pub do_get : Platform → ReceiverSettings → String → Counters → Reply
do_get p settings path c =
    if path == "/health"
    then json_response 200 (obj (field "status" (str "ok") (field "mode" (str settings.mode) end)))
    else if path == "/metrics"
    then record {
      status_code = 200;
      body = text (metrics_text p settings.mode c.requests_total c.requests_failed_total);
    }
    else not_found_reply

-- `int(self.headers.get("Content-Length", "0"))`
abbrev pub content_length : Platform → Option String → Result ℤ
content_length p none = ok (pos 0)
content_length p (some header) = elim (p.int_of header) [ none ↦ err value_error | some n ↦ ok n ]

-- What is read of the bytes that are sent.
abbrev pub read_body : ℤ → List ℕ → List ℕ
read_body (pos n) sent = take n sent
read_body (negsuc n) sent = []

-- A POST up to the pause: it is answered, or has its number and its body.
pub data Begun : Type 0 where
  answered : Reply → Begun
  numbered : ℕ → List ℕ → Begun

abbrev pub take_number : Exec Counters ℕ
take_number c = (ok c.next_number, record c { next_number = c.next_number + 1 })

unfoldable pub begin_post : Platform → String → Option String → List ℕ → Exec Counters Begun
begin_post p path header sent =
    if not (path == "/ingest") then pure (answered not_found_reply) else (do
      size ← lift (content_length p header)
      number ← take_number
      pure (numbered number (read_body size sent)))

-- `MODE == "flaky" and req_num % FAIL_EVERY == 0`
unfoldable pub should_fail : ReceiverSettings → ℕ → Bool
should_fail settings number = settings.mode == "flaky" && eqb (number % settings.fail_every) 0

abbrev pub failure : ReceiverSettings → ℕ → Reply
failure settings number = json_response 503 (
    obj (
      field "status" (str "error") (
        field "mode" (str settings.mode) (
          field "request_number" (int (pos number))
            (field "message" (str "deterministic failure") end)))))

abbrev pub success : ReceiverSettings → ℕ → List ℕ → Reply
success settings number body = json_response 200 (
    obj (
      field "status" (str "ok") (
        field "mode" (str settings.mode) (
          field "request_number" (int (pos number))
            (field "bytes" (int (pos (length body))) end)))))

-- A POST after the pause.
unfoldable pub end_post : ReceiverSettings → ℕ → List ℕ → Counters → Reply × Counters
unfolding should_fail record_request
end_post settings number body c =
    if should_fail settings number
    then (failure settings number, record_request true c)
    else (success settings number body, record_request false c)

-- The threads' steps in any order since the start, with the numbers that are taken and not yet
-- recorded.
pub data Served (p : Platform) (settings : ReceiverSettings) : Counters → List ℕ → Type 0 where
  idle : Served p settings no_counts []
  begun :
      {c : Counters} {open_numbers : List ℕ} (path : String) (header : Option String)
      (sent : List ℕ) (number : ℕ) (body : List ℕ) (after : Counters)
      → begin_post p path header sent c ≡ (ok (numbered number body), after)
      → Served p settings c open_numbers
      → Served p settings after (number ∷ open_numbers)
  ended :
      {c : Counters} {open_numbers : List ℕ} (number : ℕ) (body : List ℕ) (before behind : List ℕ)
      → open_numbers ≡ before ++ number ∷ behind
      → Served p settings c open_numbers
      → Served p settings (end_post settings number body c).1 (before ++ behind)
