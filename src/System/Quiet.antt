-- ===== src/System/Quiet.antt =====
-- The state in which no job is left.
use webhook_relay_api.Prelude.{
  ℕ, zero, suc, ◌≤◌, String, ◌≡◌, refl, inl, inr, Option, none, some, List, [], ◌∷◌, arith, All,
  IsIn, length, subst,
}
use webhook_relay_api.App.{Job, Dispatcher, App}
use webhook_relay_api.Event.{Event}
use webhook_relay_api.Event.Unique.{IsUnique}
use webhook_relay_api.Platform.{Platform}
use webhook_relay_api.Config.{Settings}
use webhook_relay_api.Database.{Database}
use webhook_relay_api.Relay.Attempts.{Network}
use webhook_relay_api.System.{
  count_running, turns_left, Reach, turn, turned, lost_by, Turns, stay, next,
}
use webhook_relay_api.System.Pending.{IsPending, IsScheduled, IsQueued, IsRelaying}
use webhook_relay_api.System.Reached.{reach-IsTracked, reach-IsPending}
use webhook_relay_api.System.Drain.{Turn-turns_left, Turns-turns_left, turn_of, Asked}

runs-le :
    (id : String) (workers : List (Option Job)) → IsRelaying id workers → 1 ≤ count_running workers
runs-le id [] h = elim h [ ]
runs-le id (none ∷ workers) h = runs-le id workers h
runs-le id (some job ∷ workers) h = omega arith

queued-le : (id : String) (queue : List Job) → IsQueued id queue → 1 ≤ length queue
queued-le id [] h = elim h [ ]
queued-le id (job ∷ queue) h = omega arith

-- Where no job is left, only the events whose job is lost are pending.
pending_lost :
    (id : String) (q : Option Dispatcher) (lost : List String)
    → turns_left q ≡ 0
    → IsPending id q lost
    → IsIn id lost
pending_lost id none lost quiet h = h
pending_lost id (some d) lost quiet (inl waits) = absurd (omega (arith, queued-le id d.queue waits))
pending_lost id (some d) lost quiet (inr (inl works)) =
    absurd (omega (arith, runs-le id d.workers works))
pending_lost id (some d) lost quiet (inr (inr gone)) = gone

module _ {Db : Type 0} (db : Database Db) (p : Platform) (answers : App Db → Network) where
  -- The jobs that end in these turns ran against the network that there is in the state before.
  abbrev pub AnsweredBy :
      {n : ℕ} {lost lost' : List String} {app app' : App Db}
      → Turns db p n lost app lost' app'
      → Type 0
  AnsweredBy (stay lost app) = Unit
  AnsweredBy (next {app'} t so_far) = Asked db p (answers app') t × AnsweredBy so_far

  counted_to :
      {lost gone : List String} {app quiet : App Db} (m n : ℕ)
      → m ≡ n
      → (turns : Turns db p m lost app gone quiet) → AnsweredBy turns
      → (turns' : Turns db p n lost app gone quiet) × AnsweredBy turns'
  counted_to {lost} {gone} {app} {quiet} m n same turns by =
      subst (λ k. (t : Turns db p k lost app gone quiet) × AnsweredBy t) same (turns, by)

module _ {Db : Type 0} (db : Database Db) (p : Platform) (settings : Settings)
    (answers : App Db → Network) (initial : App Db) (unique : IsUnique (db.rows initial.db))
    (fresh : All (λ row. ¬ IsScheduled row) (db.rows initial.db)) where
  run_down :
      (n k : ℕ) (lost lost' : List String) (app app' : App Db)
      → turns_left app'.dispatcher ≡ n
      → (turns : Turns db p k lost app lost' app') → AnsweredBy db p answers turns
      → Reach db p settings initial lost' app'
      → (m : ℕ) × (gone : List String) × (quiet : App Db) × (turns : Turns db p m lost app gone
          quiet)
        × AnsweredBy db p answers turns
        × Reach db p settings initial gone quiet
        × (turns_left quiet.dispatcher ≡ 0)
  run_down zero k lost lost' app app' left so_far by reached =
      (k, lost', app', so_far, by, reached, left)
  run_down (suc n) k lost lost' app app' left so_far by reached =
      let h = reach-IsTracked db p settings reached unique fresh in
      let (t, asked) =
        turn_of db p (answers app') app' h.dispatcher h.there h.staffed (omega arith) in
      run_down n (suc k) lost (lost_by db p t lost') app (turned db p t)
        (omega (arith, Turn-turns_left db p t)) (next t so_far) (asked, by) (turn t reached)

  -- After the startup of a process that was not running, on a table with unique rows of which none
  -- says scheduled, and whatever requests, cleanups, turns of the workers and restarts there were:
  -- for every network, whatever its answers in each state, the workers can go on with jobs that run
  -- against it, and after as many turns as are left no job is queued or runs, and a row that says
  -- scheduled is one whose job has raised an exception or was dropped by a shutdown.
  pub drains :
      (lost : List String) (app : App Db)
      → Reach db p settings initial lost app
      → (gone : List String) × (quiet : App Db) × (turns : Turns db p
          (turns_left app.dispatcher)
          lost
          app
          gone
          quiet)
        × AnsweredBy db p answers turns
        × (turns_left quiet.dispatcher ≡ 0)
        × ((row : Event) → IsIn row (db.rows quiet.db) → IsScheduled row → IsIn row.id gone)
  drains lost app reached =
      let (m, gone, quiet, turns, by, after, none_left) =
        run_down (turns_left app.dispatcher) 0 lost lost app app refl (stay lost app) tt reached in
      let same : m ≡ turns_left app.dispatcher = omega (arith, Turns-turns_left db p turns) in
      let (turns', by') = counted_to db p answers m (turns_left app.dispatcher) same turns by in
      (
        gone,
        quiet,
        turns',
        by',
        none_left,
        λ row there scheduled.
            pending_lost row.id quiet.dispatcher gone none_left
              (reach-IsPending db p settings row after unique fresh there scheduled),
      )
