-- ===== src/Event.antt =====
-- app/db/models.py: a row of the table `events`, and its constraints.
pub mod Unique
pub mod Lookup
pub mod Order
use webhook_relay_api.Prelude.{
  ℕ, String, Bool, false, ◌&&◌, ◌||◌, Option, none, some, List, ◌==◌, ltb, eqb,
}
use native.Mathlib.Nat.{ℕ_set}
use text.Mathlib.TextEquality.{IsScalar-prop}
use webhook_relay_api.Datetime.{Datetime, instant}
use webhook_relay_api.Text.Order.{text_lt}
use webhook_relay_api.Json.{Fields}

abbrev pub Headers : Type 0
Headers = List (String × String)

-- The relay columns, which are written after the insert too.
pub record RelayColumns : Type 0 where
  pub relay_status : Option String
  pub relay_attempted : ℕ
  pub relay_success : ℕ
  pub relay_attempts : ℕ
  pub relay_reason : Option String
  pub relay_last_error : Option String
  pub relay_last_status_code : Option ℕ
  pub relay_last_attempt_at : Option Datetime

pub record Event : Type 0 where
  pub id : String
  pub source : String
  pub received_at : Datetime
  pub payload : Fields
  pub headers : Headers
  pub request_id : String
  pub idempotency_key : Option String
  pub relay : RelayColumns

-- The columns of a row that sets none of them: NULL, or the column's default.
abbrev pub no_relay : RelayColumns
no_relay = record {
  relay_status = none;
  relay_attempted = 0;
  relay_success = 0;
  relay_attempts = 0;
  relay_reason = none;
  relay_last_error = none;
  relay_last_status_code = none;
  relay_last_attempt_at = none;
}

-- SQL's `=` between two nullable texts: not true where one is NULL.
abbrev pub sql_eq : Option String → Option String → Bool
sql_eq (some a) (some b) = a == b
sql_eq (some a) none = false
sql_eq none b = false

-- The primary key `id`, and `UniqueConstraint("source", "idempotency_key")`.
unfoldable pub clashes : Event → Event → Bool
clashes e row =
    row.id == e.id || (row.source == e.source && sql_eq row.idempotency_key e.idempotency_key)

-- Rows are compared by equations.
pub Event-set : IsSet Event
Event-set = hlevel (IsScalar-prop, ℕ_set)

-- ORDER BY received_at DESC, id DESC: `a` goes before `b`.
unfoldable pub newer : Event → Event → Bool
newer a b =
    ltb (instant b.received_at) (instant a.received_at)
    || (eqb (instant b.received_at) (instant a.received_at) && text_lt b.id a.id)
