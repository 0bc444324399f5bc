-- ===== src/System/Final.antt =====
-- An event that does not wait for its relay, and the steps that follow.
use webhook_relay_api.Prelude.{String, ◌≡◌, sym, ◌∙◌, some, List, All}
use webhook_relay_api.App.{App}
use webhook_relay_api.Event.{Event}
use webhook_relay_api.Event.Unique.{IsUnique}
use webhook_relay_api.Event.Lookup.{lookup-IsIn}
use webhook_relay_api.Platform.{Platform}
use webhook_relay_api.Config.{Settings}
use webhook_relay_api.Database.{Database}
use webhook_relay_api.Database.View.{get-lookup}
use webhook_relay_api.System.{
  Reach, Onward, same_state, then_request, then_turn, then_counted, then_restart,
}
use webhook_relay_api.System.Pending.{IsScheduled}
use webhook_relay_api.System.Ledger.{Change-final}
use webhook_relay_api.System.Reached.{reach-IsTracked}
use webhook_relay_api.System.Once.{IsFresh, reach-IsOnce}
use webhook_relay_api.System.Retried.{reach_after}
use webhook_relay_api.System.Refined.{request-step, restarted-step}
use webhook_relay_api.System.Refined.Turns.{turn-step}

module _ {Db : Type 0} (db : Database Db) (p : Platform) (settings : Settings) where
  found_id : (id : String) (row : Event) (d : Db) → db.get id d ≡ some row → row.id ≡ id
  found_id id row d there = (lookup-IsIn id (db.rows d) row (sym (get-lookup db id d) ∙ there)).1

  -- In a state of the process since its startup, on a table with unique rows of which none said
  -- scheduled, where an event does not wait for its relay: whatever requests, turns of the workers and
  -- restarts follow, with no cleanup, if no request since the startup draws the id of an event that
  -- has a job, the event is found under its id as it was.
  pub reach-final :
      {initial app later : App Db} {lost : List String} (id : String) (row : Event)
      (reached : Reach db p settings initial lost app) (on : Onward db p settings app later)
      → IsFresh db p settings (reach_after db p settings reached on).1
      → IsUnique (db.rows initial.db)
      → All (λ row. ¬ IsScheduled row) (db.rows initial.db)
      → db.get id app.db ≡ some row
      → ¬ IsScheduled row
      → db.get id later.db ≡ some row
  reach-final id row reached same_state ids unique fresh there settled = there
  reach-final id row reached (then_request {later} call on) (free, ids) unique fresh there settled =
      let before = reach-final id row reached on ids unique fresh there settled in
      Change-final id row
        (request-step db p settings call later
          (reach-IsTracked db p settings (reach_after db p settings reached on).1 unique fresh))
        before (found_id id row later.db before) settled
  reach-final id row reached (then_turn {later} t on) ids unique fresh there settled =
      let before = reach-final id row reached on ids unique fresh there settled in
      let run = (reach_after db p settings reached on).1 in
      Change-final id row
        (turn-step db p t (reach-IsTracked db p settings run unique fresh).live
          (λ e within. reach-IsOnce db p settings e run ids unique fresh within))
        before (found_id id row later.db before) settled
  reach-final id row reached (then_counted metrics on) ids unique fresh there settled =
      reach-final id row reached on ids unique fresh there settled
  reach-final id row reached (then_restart {later} metrics on) ids unique fresh there settled =
      let before = reach-final id row reached on ids unique fresh there settled in
      Change-final id row (restarted-step db p settings metrics later) before
        (found_id id row later.db before) settled
