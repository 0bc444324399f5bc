-- ===== src/Database.antt =====
-- What the program relies on of SQLAlchemy and the database: an abstract table of events, with the
-- statements that the program issues, each in a transaction of its own. `rows` is the table's
-- content in the order of insertion. A statement fails by a violated constraint only.
pub mod Table
pub mod View
pub mod Engine
use mathlib.Core.List.{Perm, Pairwise}
use webhook_relay_api.Prelude.{
  ℕ, ◌+◌, String, ◌≡◌, Bool, true, false, not, Option, none, some, List, [], ◌∷◌, ◌++◌, map, ◌==◌,
  if◌then◌else◌, any, keep, take, length,
}
use webhook_relay_api.Datetime.{Datetime, aware, utc, to_utc}
use webhook_relay_api.Event.{Event, RelayColumns, clashes}

-- A row as the database gives it back: the driver may change how a time is written.
module _ (store_time : Datetime → Datetime) where
  abbrev pub stored_columns : RelayColumns → RelayColumns
  stored_columns u = record u {
    relay_last_attempt_at = elim u.relay_last_attempt_at [
      | none ↦ none
      | some t ↦ some (store_time t)
    ];
  }

  abbrev pub stored : Event → Event
  stored e = record e { received_at = store_time e.received_at; relay = stored_columns e.relay }

-- `UPDATE events SET ... WHERE id = :id`, on one row.
abbrev pub set_relay : String → RelayColumns → Event → Event
set_relay id u row = if row.id == id then record row { relay = u } else row

-- An ORDER BY clause compares rows by a strict weak order.
pub record IsOrdering (before : Event → Event → Bool) : Type 0 where
  pub asymmetric : (a b : Event) → before a b ≡ true → before b a ≡ false
  pub not_before_trans :
      (a b c : Event) → before b a ≡ false → before c b ≡ false → before c a ≡ false

pub record Database (Db : Type 0) : Type 0 where
  pub rows : Db → List Event
  pub store_time : Datetime → Datetime
  -- INSERT; `none` stands for `IntegrityError`
  pub insert : Event → Db → Option Db
  -- `db.get(Event, id)`
  pub get : String → Db → Option Event
  -- SELECT ... WHERE
  pub select : (Event → Bool) → Db → List Event
  -- SELECT ... WHERE ... ORDER BY ... LIMIT, with the order as a test "goes before"
  pub select_ordered : (Event → Bool) → (Event → Event → Bool) → ℕ → Db → List Event
  -- UPDATE of the relay columns, by id
  pub update_relay : String → RelayColumns → Db → Db
  -- DELETE ... WHERE, with the row count
  pub delete : (Event → Bool) → Db → Db × ℕ
  -- A UTC time is the same time when it is read back as UTC.
  pub store_time_utc : (t : ℕ) → to_utc (store_time (aware t utc)) ≡ aware t utc
  pub insert_clash : (e : Event) (d : Db) → any (clashes e) (rows d) ≡ true → insert e d ≡ none
  pub insert_fresh :
      (e : Event) (d : Db)
      → any (clashes e) (rows d) ≡ false
      → (d' : Db) × (insert e d ≡ some d') × (rows d' ≡ rows d ++ stored store_time e ∷ [])
  pub get_lem : (id : String) (d : Db) → keep (λ row. row.id == id) (rows d) ≡ [] → get id d ≡ none
  pub get_first :
      (id : String) (d : Db) (e : Event) (more : List Event)
      → keep (λ row. row.id == id) (rows d) ≡ e ∷ more
      → get id d ≡ some e
  pub select_perm : (test : Event → Bool) (d : Db) → Perm (select test d) (keep test (rows d))
  -- The limit cuts a sorted list of the rows that are selected.
  pub select_ordered_sorted :
      (test : Event → Bool) (before : Event → Event → Bool) (n : ℕ) (d : Db)
      → IsOrdering before
      → (all : List Event) × Perm all (keep test (rows d))
        × Pairwise (λ a b. before b a ≡ false) all
        × (select_ordered test before n d ≡ take n all)
  pub rows-update_relay :
      (id : String) (u : RelayColumns) (d : Db)
      → rows (update_relay id u d) ≡ map (set_relay id (stored_columns store_time u)) (rows d)
  pub rows-delete :
      (test : Event → Bool) (d : Db)
      → rows (delete test d).0 ≡ keep (λ row. not (test row)) (rows d)
  pub count-delete :
      (test : Event → Bool) (d : Db) → (delete test d).1 ≡ length (keep test (rows d))
