-- ===== src/System/Jobs.antt =====
-- How many jobs an event has.
use webhook_relay_api.Prelude.{
  ℕ, ◌+◌, ◌≤◌, String, ◌≡◌, refl, sym, ap, inl, inr, Bool, true, false, ◌&&◌, Option, none, some,
  List, [], ◌∷◌, ◌++◌, ◌==◌, eq_iff, one_if, arith, truthy, ltb, length, Bool-cases,
}
use webhook_relay_api.Platform.{Platform}
use webhook_relay_api.Config.{Settings}
use webhook_relay_api.App.{Job, Dispatcher}
use webhook_relay_api.Event.{Event, clashes}
use webhook_relay_api.Database.{set_relay, stored_columns, stored}
use webhook_relay_api.Datetime.{Datetime}
use webhook_relay_api.Relay.{RelayResult}
use webhook_relay_api.Routes.{relay_update_values}
use webhook_relay_api.Routes.Request.{relay_job}
use webhook_relay_api.Routes.Intake.Stored.{planned_columns, queued}

abbrev pub count_queued : String → List Job → ℕ
count_queued id [] = 0
count_queued id (job ∷ jobs) = one_if (job.event_id == id) + count_queued id jobs

abbrev pub count_working : String → List (Option Job) → ℕ
count_working id [] = 0
count_working id (none ∷ workers) = count_working id workers
count_working id (some job ∷ workers) = one_if (job.event_id == id) + count_working id workers

-- The jobs of an event, in the queue and at the workers.
abbrev pub count_jobs : String → Option Dispatcher → ℕ
count_jobs id none = 0
count_jobs id (some d) = count_queued id d.queue + count_working id d.workers

abbrev pub is_scheduled : Event → Bool
is_scheduled row = elim row.relay.relay_status [
  | none ↦ false
  | some status ↦ status == "scheduled"
]

-- One job at most, and none where the row does not say scheduled.
abbrev pub IsOnce : Option Dispatcher → Event → Type 0
IsOnce q row = count_jobs row.id q ≤ one_if (is_scheduled row)

pub count_queued-last :
    (id : String) (jobs : List Job) (job : Job)
    → count_queued id (jobs ++ job ∷ []) ≡ count_queued id jobs + one_if (job.event_id == id)
count_queued-last id [] job = omega arith
count_queued-last id (x ∷ jobs) job = omega (arith, count_queued-last id jobs job)

count_working-some :
    (id : String) (before : List (Option Job)) (job : Job) (behind : List (Option Job))
    → count_working id (before ++ some job ∷ behind)
      ≡ one_if (job.event_id == id) + count_working id (before ++ none ∷ behind)
count_working-some id [] job behind = refl
count_working-some id (none ∷ before) job behind = count_working-some id before job behind
count_working-some id (some x ∷ before) job behind =
    omega (arith, count_working-some id before job behind)

one_if-le : (b : Bool) → one_if b ≤ 1
one_if-le true = omega arith
one_if-le false = omega arith

module _ (d : Dispatcher) (job : Job) (before behind : List (Option Job)) where
  abbrev pub freed : Dispatcher
  freed = record d { workers = before ++ none ∷ behind }

  pub count-freed :
      (id : String)
      → d.workers ≡ before ++ some job ∷ behind
      → count_jobs id (some d) ≡ one_if (job.event_id == id) + count_jobs id (some freed)
  count-freed id runs =
      omega (arith, ap (count_working id) runs, count_working-some id before job behind)

  pub count-taken :
      (id : String) (queue : List Job)
      → d.queue ≡ job ∷ queue
      → d.workers ≡ before ++ none ∷ behind
      → count_jobs id (some (record d { queue = queue; workers = before ++ some job ∷ behind }))
        ≡ count_jobs id (some d)
  count-taken id queue first idle = omega (
    arith,
    ap (count_queued id) first,
    ap (count_working id) idle,
    count_working-some id before job behind,
  )

  pub failed-IsOnce :
      (row : Event)
      → d.workers ≡ before ++ some job ∷ behind
      → IsOnce (some d) row
      → IsOnce (some freed) row
  failed-IsOnce row runs h = omega (arith, count-freed row.id runs)

  pub done-IsOnce :
      (store_time : Datetime → Datetime) (r : RelayResult) (row : Event)
      → d.workers ≡ before ++ some job ∷ behind
      → IsOnce (some d) row
      → IsOnce
          (some freed)
          (set_relay job.event_id (stored_columns store_time (relay_update_values r)) row)
  done-IsOnce store_time r row runs h = elim (Bool-cases (row.id == job.event_id)) [
    | inl own ↦
        let same : job.event_id ≡ row.id = sym ((eq_iff row.id job.event_id).0 own) in
        let one : one_if (job.event_id == row.id) ≡ 1 =
          ap one_if ((eq_iff job.event_id row.id).1 same) in
        let gone : count_jobs row.id (some freed) ≡ 0 =
          omega (arith, count-freed row.id runs, one_if-le (is_scheduled row)) in
        rw own (rw gone (omega arith))
    | inr other ↦ rw other (failed-IsOnce row runs h)
  ]

module _ (p : Platform) (settings : Settings) (event : Event) where
  -- A row that is there keeps its jobs when another event is stored.
  pub queued-IsOnce :
      (q : Option Dispatcher) (row : Event)
      → clashes event row ≡ false
      → IsOnce q row
      → IsOnce (queued p settings event q) row
  unfolding clashes
  queued-IsOnce none row apart h = h
  queued-IsOnce (some d) row apart h =
      elim (Bool-cases (truthy settings.target_url && ltb (length d.queue) d.maxsize)) [
        | inl room ↦
            let other : one_if (event.id == row.id) ≡ 0 =
              ground (arith, eq_iff event.id row.id, eq_iff row.id event.id) in
            rw room
              (omega (arith, count_queued-last row.id d.queue (relay_job p settings event), other))
        | inr full ↦ rw full h
      ]

  -- The new row has its one job exactly if it says scheduled.
  pub planned-IsOnce :
      (store_time : Datetime → Datetime) (q : Option Dispatcher) (d : Dispatcher)
      → q ≡ some d
      → event.relay ≡ planned_columns settings q
      → count_jobs event.id q ≡ 0
      → IsOnce (queued p settings event q) (stored store_time event)
  planned-IsOnce store_time none d there columns free = cc
  planned-IsOnce store_time (some c) d there columns free =
      elim (Bool-cases (truthy settings.target_url)) [
        | inr off ↦ rw off (omega (arith, free))
        | inl target ↦ elim (Bool-cases (ltb (length c.queue) c.maxsize)) [
          | inr full ↦ rw target (rw full (omega (arith, free)))
          | inl room ↦
              let says : is_scheduled (stored store_time event) ≡ true =
                rw columns (rw target (rw room refl)) in
              let one : one_if (event.id == event.id) ≡ 1 =
                ap one_if ((eq_iff event.id event.id).1 refl) in
              rw target (
                rw room (
                  rw says (
                    omega (
                      arith,
                      free,
                      one,
                      count_queued-last event.id c.queue (relay_job p settings event),
                    ))))
        ]
      ]
