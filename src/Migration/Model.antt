-- ===== src/Migration/Model.antt =====
-- The table as app/db/models.py declares it, and its creation by `init_db` (app/db/session.py). What
-- SQLAlchemy does with the declaration is an interface with laws.
use mathlib.Core.List.{Perm}
use webhook_relay_api.Prelude.{
  String, ◌≡◌, Bool, true, false, not, ◌&&◌, List, [], ◌∷◌, ◌++◌, All, any,
}
use webhook_relay_api.Result.{Error, Result, ok, err}
use webhook_relay_api.Migration.{
  Column, Table, Index, is_table, is_index, Op, string, integer, json, datetime_tz, required,
  optional, index_on,
}

-- `mapped_column(Integer, default=0)`: the default is the program's, not the database's.
abbrev pub mapped_counter : String → Column
mapped_counter name = required name integer

-- `Mapped[str]` is required, `Mapped[str | None]` optional.
abbrev pub model_table : Table
model_table = record {
  name = "events";
  columns =
      required "id" (string 36)
      ∷ required "source" (string 100)
      ∷ required "received_at" datetime_tz
      ∷ required "payload" json
      ∷ required "headers" json
      ∷ required "request_id" (string 36)
      ∷ optional "idempotency_key" (string 255)
      ∷ optional "relay_status" (string 32)
      ∷ mapped_counter "relay_attempted"
      ∷ mapped_counter "relay_success"
      ∷ mapped_counter "relay_attempts"
      ∷ optional "relay_reason" (string 64)
      ∷ optional "relay_last_error" (string 500)
      ∷ optional "relay_last_status_code" integer
      ∷ optional "relay_last_attempt_at" datetime_tz
      ∷ [];
  primary_key = "id" ∷ [];
  uniques =
      record {
        name = "uq_events_source_idempotency_key";
        columns = "source" ∷ "idempotency_key" ∷ [];
      }
      ∷ [];
}

-- The columns with `index=True`, and then those of `__table_args__`.
abbrev pub model_indexes : List Index
model_indexes =
    index_on "ix_events_source" ("source" ∷ [])
    ∷ index_on "ix_events_received_at" ("received_at" ∷ [])
    ∷ index_on "ix_events_request_id" ("request_id" ∷ [])
    ∷ index_on "ix_events_idempotency_key" ("idempotency_key" ∷ [])
    ∷ index_on "ix_events_received_at_id" ("received_at" ∷ "id" ∷ [])
    ∷ index_on "ix_events_source_received_at_id" ("source" ∷ "received_at" ∷ "id" ∷ [])
    ∷ []

-- No two indexes have one name.
abbrev pub distinct_names : List Index → Bool
distinct_names [] = true
distinct_names (i ∷ indexes) = not (any (is_index i.name) indexes) && distinct_names indexes

-- `MetaData.create_all` for one table with its indexes: a table that is there is left as it is, with
-- its indexes. A table is not created over one of its name.
pub record Creation {Schema : Type 0} (op : Op Schema) : Type 0 where
  pub create_all : Table → List Index → Schema → Result Schema
  pub create_all_there :
      (t : Table) (indexes : List Index) (s : Schema)
      → any (is_table t.name) (op.tables s) ≡ true
      → create_all t indexes s ≡ ok s
  pub create_all_new :
      (t : Table) (indexes : List Index) (s : Schema)
      → any (is_table t.name) (op.tables s) ≡ false
      → All (λ i. i.table_name ≡ t.name) indexes
      → All (λ i. any (is_index i.name) (op.indexes s) ≡ false) indexes
      → distinct_names indexes ≡ true
      → (s' : Schema) × (create_all t indexes s ≡ ok s')
        × (op.tables s' ≡ op.tables s ++ t ∷ [])
        × Perm (op.indexes s') (op.indexes s ++ indexes)
  pub create_table_taken :
      (t : Table) (s : Schema)
      → any (is_table t.name) (op.tables s) ≡ true
      → (e : Error) × (op.create_table t s ≡ err e)

-- `Base.metadata.create_all(bind=_ENGINE)`
unfoldable pub create_events :
    {Schema : Type 0} {op : Op Schema} → Creation op → Schema → Result Schema
create_events creation s = creation.create_all model_table model_indexes s
