-- ===== src/Migration.antt =====
-- alembic/versions/0001_initial.py: the first migration, as operations on a schema. What alembic and
-- the database do with an operation is an interface with laws.
pub mod Names
pub mod Roundtrip
pub mod Plain
pub mod Model
pub mod Agreement
pub mod Env
pub mod Urls
pub mod Widths
use webhook_relay_api.Prelude.{
  ℕ, String, Bool, true, false, not, ◌≡◌, Option, none, some, List, [], ◌∷◌, ◌++◌, any, keep, ◌==◌,
}
use webhook_relay_api.Result.{Result, ok, ◌>>=◌}

pub data ColumnType : Type 0 where
  string : ℕ → ColumnType
  integer json datetime_tz : ColumnType

pub record Column : Type 0 where
  pub name : String
  pub column_type : ColumnType
  pub nullable : Bool
  pub server_default : Option String

pub record UniqueConstraint : Type 0 where
  pub name : String
  pub columns : List String

pub record Table : Type 0 where
  pub name : String
  pub columns : List Column
  pub primary_key : List String
  pub uniques : List UniqueConstraint

pub record Index : Type 0 where
  pub name : String
  pub table_name : String
  pub columns : List String

abbrev pub is_table : String → Table → Bool
is_table name t = t.name == name

abbrev pub is_index : String → Index → Bool
is_index name i = i.name == name

abbrev pub is_index_of : String → Index → Bool
is_index_of name i = i.table_name == name

-- `alembic.op`: an object is created where its name is free, and dropped where it is there.
pub record Op (Schema : Type 0) : Type 0 where
  pub tables : Schema → List Table
  pub indexes : Schema → List Index
  pub create_table : Table → Schema → Result Schema
  pub create_index : Index → Schema → Result Schema
  pub drop_index : String → Schema → Result Schema
  pub drop_table : String → Schema → Result Schema
  pub create_table_lem :
      (t : Table) (s : Schema)
      → any (is_table t.name) (tables s) ≡ false
      → (s' : Schema) × (create_table t s ≡ ok s')
        × (tables s' ≡ tables s ++ t ∷ [])
        × (indexes s' ≡ indexes s)
  pub create_index_lem :
      (i : Index) (s : Schema)
      → any (is_table i.table_name) (tables s) ≡ true
      → any (is_index i.name) (indexes s) ≡ false
      → (s' : Schema) × (create_index i s ≡ ok s')
        × (tables s' ≡ tables s)
        × (indexes s' ≡ indexes s ++ i ∷ [])
  pub drop_index_lem :
      (name : String) (s : Schema)
      → any (is_index name) (indexes s) ≡ true
      → (s' : Schema) × (drop_index name s ≡ ok s')
        × (tables s' ≡ tables s)
        × (indexes s' ≡ keep (λ i. not (is_index name i)) (indexes s))
  pub drop_table_lem :
      (name : String) (s : Schema)
      → any (is_table name) (tables s) ≡ true
      → (s' : Schema) × (drop_table name s ≡ ok s')
        × (tables s' ≡ keep (λ t. not (is_table name t)) (tables s))
        × (indexes s' ≡ keep (λ i. not (is_index_of name i)) (indexes s))

abbrev pub required : String → ColumnType → Column
required name column_type = record {
  name = name;
  column_type = column_type;
  nullable = false;
  server_default = none;
}

abbrev pub optional : String → ColumnType → Column
optional name column_type = record {
  name = name;
  column_type = column_type;
  nullable = true;
  server_default = none;
}

abbrev pub counter : String → Column
counter name = record {
  name = name;
  column_type = integer;
  nullable = false;
  server_default = some "0";
}

abbrev pub events_table : Table
events_table = record {
  name = "events";
  columns =
      required "id" (string 36)
      ∷ required "source" (string 100)
      ∷ required "received_at" datetime_tz
      ∷ required "payload" json
      ∷ required "headers" json
      ∷ required "request_id" (string 36)
      ∷ optional "idempotency_key" (string 255)
      ∷ optional "relay_status" (string 32)
      ∷ counter "relay_attempted"
      ∷ counter "relay_success"
      ∷ counter "relay_attempts"
      ∷ optional "relay_reason" (string 64)
      ∷ optional "relay_last_error" (string 500)
      ∷ optional "relay_last_status_code" integer
      ∷ optional "relay_last_attempt_at" datetime_tz
      ∷ [];
  primary_key = "id" ∷ [];
  uniques =
      record {
        name = "uq_events_source_idempotency_key";
        columns = "source" ∷ "idempotency_key" ∷ [];
      }
      ∷ [];
}

abbrev pub index_on : String → List String → Index
index_on name columns = record { name = name; table_name = "events"; columns = columns }

abbrev pub ix_idempotency_key : Index
ix_idempotency_key = index_on "ix_events_idempotency_key" ("idempotency_key" ∷ [])

abbrev pub ix_received_at : Index
ix_received_at = index_on "ix_events_received_at" ("received_at" ∷ [])

abbrev pub ix_request_id : Index
ix_request_id = index_on "ix_events_request_id" ("request_id" ∷ [])

abbrev pub ix_source : Index
ix_source = index_on "ix_events_source" ("source" ∷ [])

abbrev pub ix_received_at_id : Index
ix_received_at_id = index_on "ix_events_received_at_id" ("received_at" ∷ "id" ∷ [])

abbrev pub ix_source_received_at_id : Index
ix_source_received_at_id =
    index_on "ix_events_source_received_at_id" ("source" ∷ "received_at" ∷ "id" ∷ [])

module _ {Schema : Type 0} (op : Op Schema) where
  unfoldable pub upgrade : Schema → Result Schema
  upgrade s0 = do
    s1 ← op.create_table events_table s0
    s2 ← op.create_index ix_idempotency_key s1
    s3 ← op.create_index ix_received_at s2
    s4 ← op.create_index ix_request_id s3
    s5 ← op.create_index ix_source s4
    s6 ← op.create_index ix_received_at_id s5
    op.create_index ix_source_received_at_id s6

  unfoldable pub downgrade : Schema → Result Schema
  downgrade s0 = do
    s1 ← op.drop_index "ix_events_source_received_at_id" s0
    s2 ← op.drop_index "ix_events_received_at_id" s1
    s3 ← op.drop_index "ix_events_source" s2
    s4 ← op.drop_index "ix_events_request_id" s3
    s5 ← op.drop_index "ix_events_received_at" s4
    s6 ← op.drop_index "ix_events_idempotency_key" s5
    op.drop_table "events" s6
