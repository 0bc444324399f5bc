-- ===== src/Routes/Cursor.antt =====
-- `_encode_cursor` and `_decode_cursor` (app/api/routes.py).
use webhook_relay_api.Prelude.{
  ℕ, String, ◌≡◌, refl, Option, none, some, List, ◌==◌, true, truthy, if◌then◌else◌,
}
use webhook_relay_api.Result.{Result, ok, err, http_exception}
use webhook_relay_api.Datetime.{Datetime, aware, utc, to_utc, instant, to_utc-eq-aware}
use webhook_relay_api.Json.{Json, str, obj, Fields, end, field}
use webhook_relay_api.Platform.{Platform, Loaded, loaded, malformed, too_many_digits, too_deep}

-- `payload[key]` of a dict
unfoldable pub field_of : String → Fields → Option Json
field_of key end = none
field_of key (field k v more) = if k == key then some v else field_of key more

-- `{"ts": ..., "id": ...}`
abbrev pub cursor_payload : String → String → Json
cursor_payload ts id = obj (field "ts" (str ts) (field "id" (str id) end))

infixl 5 ◌>>=◌
abbrev pub ◌>>=◌ {ℓ κ} : {A : Type ℓ} {B : Type κ} → Option A → (A → Option B) → Option B
none >>= f = none
some a >>= f = f a

abbrev pub as_fields : Json → Option Fields
as_fields (obj fields) = some fields
as_fields _ = none

abbrev pub as_text : Json → Option String
as_text (str text) = some text
as_text _ = none

-- The cursor's `except` takes every exception of `json.loads`.
abbrev pub loaded_value : Loaded → Option Json
loaded_value (loaded value) = some value
loaded_value malformed = none
loaded_value too_many_digits = none
loaded_value too_deep = none

module _ (p : Platform) where
  unfoldable pub encode_cursor : Datetime → String → String
  encode_cursor received_at event_id =
      p.b64encode
        (p.encode_utf8 (p.json_dumps (cursor_payload (p.isoformat (to_utc received_at)) event_id)))

  -- `str(payload["id"])`: a text is itself.
  abbrev pub text_of : Json → String
  text_of (str text) = text
  text_of other = p.show_json other

  -- The body of the `try`; `none` stands for whatever is raised. Of the time only its instant is
  -- used: a naive one is taken as UTC.
  unfoldable pub read_cursor : String → Option (ℕ × String)
  unfolding field_of
  read_cursor cursor = do
    raw ← p.b64decode cursor
    text ← p.decode_utf8 raw
    payload ← loaded_value (p.json_loads text)
    fields ← as_fields payload
    ts_value ← field_of "ts" fields
    ts_text ← as_text ts_value
    ts ← p.fromisoformat ts_text
    id_value ← field_of "id" fields
    some (instant ts, text_of id_value)

  unfoldable pub decode_cursor : String → Result (ℕ × String)
  decode_cursor cursor = elim (read_cursor cursor) [
    | none ↦ err (http_exception 400 "Invalid cursor")
    | some found ↦ ok found
  ]

  -- What the documentation of `base64`, `str.encode`, `json` and `datetime` says of their inverses,
  -- at the values that a cursor is made of; an encoded text is not empty.
  pub record IsCodec : Type 0 where
    pub base64_inverse : (raw : List ℕ) → p.b64decode (p.b64encode raw) ≡ some raw
    pub utf8_inverse : (text : String) → p.decode_utf8 (p.encode_utf8 text) ≡ some text
    pub json_inverse :
        (ts id : String)
        → p.json_loads (p.json_dumps (cursor_payload ts id)) ≡ loaded (cursor_payload ts id)
    pub cursor_truthy :
        (ts id : String)
        → truthy (p.b64encode (p.encode_utf8 (p.json_dumps (cursor_payload ts id)))) ≡ true
    pub iso_inverse : (t : ℕ) → p.fromisoformat (p.isoformat (aware t utc)) ≡ some (aware t utc)

  read_cursor-encode :
      IsCodec
      → (t : ℕ) (id : String)
      → read_cursor (
          p.b64encode
            (p.encode_utf8 (p.json_dumps (cursor_payload (p.isoformat (aware t utc)) id))))
        ≡ some (t, id)
  unfolding read_cursor
  read_cursor-encode c t id =
      rw
        (c.base64_inverse
          (p.encode_utf8 (p.json_dumps (cursor_payload (p.isoformat (aware t utc)) id))))
        (rw (c.utf8_inverse (p.json_dumps (cursor_payload (p.isoformat (aware t utc)) id)))
          (rw (c.json_inverse (p.isoformat (aware t utc)) id) (rw (c.iso_inverse t) refl)))

  -- Where the encodings invert, a cursor that the service has issued is read back as the instant
  -- and the id of its event.
  pub decode_cursor-encode_cursor :
      IsCodec
      → (received_at : Datetime) (id : String)
      → decode_cursor (encode_cursor received_at id) ≡ ok (instant received_at, id)
  unfolding decode_cursor encode_cursor
  decode_cursor-encode_cursor c received_at id =
      rw (to_utc-eq-aware received_at, encode_cursor)
        (rw (read_cursor-encode c (instant received_at) id, decode_cursor) refl)

  pub encode_cursor-truthy :
      IsCodec
      → (received_at : Datetime) (id : String) → truthy (encode_cursor received_at id) ≡ true
  unfolding encode_cursor
  encode_cursor-truthy c received_at id = c.cursor_truthy (p.isoformat (to_utc received_at)) id
