-- ===== src/Logging.antt =====
-- app/core/logging.py: the line of a log record, and the root logger. The record's `__dict__` is an
-- association list, in its order.
use webhook_relay_api.Prelude.{
  ℕ, String, ◌≡◌, refl, sym, ap, ◌∙◌, keep-true, keep-false, Bool, true, not, Option, none, some,
  List, [], ◌∷◌, ◌++◌, keep, contains, ◌==◌, if◌then◌else◌, Bool-cases, inl, inr,
}
use webhook_relay_api.Datetime.{aware, utc}
use webhook_relay_api.Json.{Json, str, obj, Fields, end, field}
use webhook_relay_api.Platform.{Platform}

abbrev pub Attributes : Type 0
Attributes = List (String × Json)

pub record LogRecord : Type 0 where
  pub levelname : String
  pub name : String
  -- `record.getMessage()`
  pub message : String
  pub request_id : Option String
  -- the other attributes, with those of the call's `extra`
  pub attributes : Attributes

-- `RequestIdFilter.filter`, with what the context holds.
abbrev pub filter_record : String → LogRecord → Bool × LogRecord
filter_record context_id r = (true, record r { request_id = some context_id })

-- The attributes that are not written.
abbrev pub left_out : List String
left_out =
    "args" ∷ "asctime" ∷ "created" ∷ "exc_info" ∷ "exc_text" ∷ "filename" ∷ "funcName" ∷ "levelname"
    ∷ "levelno" ∷ "lineno" ∷ "module" ∷ "msecs" ∷ "message" ∷ "msg" ∷ "name" ∷ "pathname"
    ∷ "process" ∷ "processName" ∷ "relativeCreated" ∷ "stack_info" ∷ "thread" ∷ "threadName"
    ∷ "request_id" ∷ []

-- `base[key] = value`: a key keeps its place.
unfoldable pub put_field : String → Json → Fields → Fields
put_field key value end = field key value end
put_field key value (field k v rest) =
    if k == key then field k value rest else field k v (put_field key value rest)

-- `base.update(extras)`
unfoldable pub update : Fields → Attributes → Fields
unfolding put_field
update base [] = base
update base ((key, value) ∷ extras) = update (put_field key value base) extras

abbrev pub is_extra : String × Json → Bool
is_extra (key, value) = not (contains left_out key)

-- `getattr(record, "request_id", "-")`
abbrev pub id_or_dash : Option String → String
id_or_dash none = "-"
id_or_dash (some id) = id

abbrev pub base_of : Platform → ℕ → LogRecord → Fields
base_of p now r = field "ts" (str (p.isoformat (aware now utc))) (
    field "level" (str r.levelname) (
      field "logger" (str r.name)
        (field "message" (str r.message) (field "request_id" (str (id_or_dash r.request_id)) end))))

-- `JsonFormatter.format`
unfoldable pub format_record : Platform → ℕ → LogRecord → String
format_record p now r = p.json_dumps (obj (update (base_of p now r) (keep is_extra r.attributes)))

keep-hidden :
    (before after : Attributes) (key : String) (value : Json)
    → contains left_out key ≡ true
    → keep is_extra (before ++ (key, value) ∷ after) ≡ keep is_extra (before ++ after)
keep-hidden [] after key value hidden = keep-false is_extra (key, value) after (ap not hidden)
keep-hidden ((k, v) ∷ before) after key value hidden =
    let rest = keep-hidden before after key value hidden in
    elim (Bool-cases (is_extra (k, v))) [
      | inl shown ↦
          keep-true is_extra (k, v) (before ++ (key, value) ∷ after) shown
          ∙ ap (λ l. (k, v) ∷ l) rest
          ∙ sym (keep-true is_extra (k, v) (before ++ after) shown)
      | inr out ↦
          keep-false is_extra (k, v) (before ++ (key, value) ∷ after) out
          ∙ rest
          ∙ sym (keep-false is_extra (k, v) (before ++ after) out)
    ]

-- The line is the same with and without an attribute that is not written, the exception's among them.
format_record-hides :
    (p : Platform) (now : ℕ) (r : LogRecord) (before after : Attributes) (key : String)
    (value : Json)
    → contains left_out key ≡ true
    → format_record p now (record r { attributes = before ++ (key, value) ∷ after })
      ≡ format_record p now (record r { attributes = before ++ after })
unfolding format_record
format_record-hides p now r before after key value hidden =
    ap (λ extras. p.json_dumps (obj (update (base_of p now r) extras)))
      (keep-hidden before after key value hidden)

-- The exception is not written.
exc_info_hidden : contains left_out "exc_info" ≡ true
exc_info_hidden = refl

-- A handler with `RequestIdFilter` and `JsonFormatter`, or any other, by its name.
pub data Handler : Type 0 where
  json_handler : Handler
  other_handler : String → Handler

pub record RootLogger : Type 0 where
  pub handlers : List Handler
  pub level : String

unfoldable pub setup_logging : Platform → String → RootLogger → RootLogger
setup_logging p level root = record root { handlers = json_handler ∷ []; level = p.upper level }

-- Whatever was set up before, one handler remains, so that no line is written twice.
setup_logging-setup_logging :
    (p : Platform) (level earlier : String) (root : RootLogger)
    → setup_logging p level (setup_logging p earlier root) ≡ setup_logging p level root
unfolding setup_logging
setup_logging-setup_logging p level earlier root = refl
