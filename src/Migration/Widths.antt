-- ===== src/Migration/Widths.antt =====
-- The widths of the columns, and what the program itself writes into them. SQLite does not check a
-- width, other databases do.
use webhook_relay_api.Prelude.{
  ◌≤◌, String, Option, none, some, List, [], ◌∷◌, All, IsIn, ◌==◌, if◌then◌else◌, arith,
}
use webhook_relay_api.Prelude.Alls.{All_of_IsIn}
use webhook_relay_api.Text.{text_length}
use webhook_relay_api.App.{App}
use webhook_relay_api.Event.{Event, RelayColumns}
use webhook_relay_api.Event.Unique.{IsUnique}
use webhook_relay_api.Platform.{Platform}
use webhook_relay_api.Config.{Settings}
use webhook_relay_api.Database.{Database}
use webhook_relay_api.Relay.Outcome.{failure_reasons}
use webhook_relay_api.Migration.{
  Column, ColumnType, string, integer, json, datetime_tz, events_table,
}
use webhook_relay_api.System.{Reach}
use webhook_relay_api.System.Pending.{IsScheduled}
use webhook_relay_api.System.Columns.{
  IsConsistent, unrelayed, awaiting, skipped, succeeded, failed, skip_reasons,
}
use webhook_relay_api.System.Statuses.{Rows, reach-IsConsistent}

abbrev pub type_of : String → List Column → Option ColumnType
type_of name [] = none
type_of name (column ∷ columns) =
    if column.name == name then some column.column_type else type_of name columns

-- A text, or NULL, in a column of that type.
abbrev pub Fits : Option ColumnType → Option String → Type 0
Fits (some (string n)) none = Unit
Fits (some (string n)) (some text) = text_length text ≤ n
Fits (some integer) text = ⊥
Fits (some json) text = ⊥
Fits (some datetime_tz) text = ⊥
Fits none text = ⊥

-- The texts of the relay columns that the program chooses.
abbrev pub RelayFits : RelayColumns → Type 0
RelayFits u =
    Fits (type_of "relay_status" events_table.columns) u.relay_status
    × Fits (type_of "relay_reason" events_table.columns) u.relay_reason

reasons_fit : All (λ reason. text_length reason ≤ 64) skip_reasons
unfolding text_length
reasons_fit =
    (omega arith, (omega arith, (omega arith, (omega arith, (omega arith, (omega arith, tt))))))

failures_fit : All (λ reason. text_length reason ≤ 64) failure_reasons
unfolding text_length
failures_fit = (omega arith, (omega arith, (omega arith, (omega arith, tt))))

IsConsistent-RelayFits : (u : RelayColumns) → IsConsistent u → RelayFits u
unfolding text_length
IsConsistent-RelayFits u (unrelayed same) = rw same (tt, tt)
IsConsistent-RelayFits u (awaiting same) = rw same (omega arith, omega arith)
IsConsistent-RelayFits u (skipped status _ _ _ reason why known) = rw status (
    rw why
      (omega arith, All_of_IsIn (λ x. text_length x ≤ 64) reason skip_reasons known reasons_fit))
IsConsistent-RelayFits u (succeeded c status _ _ _ _ _ _ why) =
    rw status (rw why (omega arith, omega arith))
IsConsistent-RelayFits u (failed status _ _ _ _ reason why known) = rw status (
    rw why (
      omega arith,
      All_of_IsIn (λ x. text_length x ≤ 64) reason failure_reasons known failures_fit,
    ))

module _ {Db : Type 0} (db : Database Db) (p : Platform) (settings : Settings) where
  -- After the startup of a process that was not running, on a table with unique rows of which none
  -- says scheduled and whose relay columns are consistent, whatever requests, cleanups, turns of the
  -- workers and restarts follow: the status and the reason of the relay are within the widths that the
  -- migration gives their columns, in every row.
  pub reach-RelayFits :
      {initial app : App Db} {lost : List String} (row : Event)
      → Reach db p settings initial lost app
      → IsUnique (db.rows initial.db)
      → All (λ row. ¬ IsScheduled row) (db.rows initial.db)
      → Rows db p settings initial
      → IsIn row (db.rows app.db)
      → RelayFits row.relay
  reach-RelayFits row so_far unique fresh h there =
      IsConsistent-RelayFits row.relay
        (reach-IsConsistent db p settings row so_far unique fresh h there)
