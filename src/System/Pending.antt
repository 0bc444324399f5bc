-- ===== src/System/Pending.antt =====
-- An event whose relay is scheduled and where its job is.
use webhook_relay_api.Prelude.{
  String, ◌≡◌, refl, ◌⊎◌, inl, inr, Option, none, some, List, [], ◌∷◌, ◌++◌, arith, IsIn,
  Bool-cases, truthy, ltb, length, eq_iff, ◌&&◌,
}
use webhook_relay_api.App.{Job, Dispatcher}
use webhook_relay_api.Event.{Event}
use webhook_relay_api.Platform.{Platform}
use webhook_relay_api.Config.{Settings}
use webhook_relay_api.Routes.Request.{relay_job}
use webhook_relay_api.Routes.Intake.Stored.{planned_columns, queued}

abbrev pub IsQueued : String → List Job → Type 0
IsQueued id [] = ⊥
IsQueued id (job ∷ jobs) = (id ≡ job.event_id) ⊎ IsQueued id jobs

abbrev pub IsRelaying : String → List (Option Job) → Type 0
IsRelaying id [] = ⊥
IsRelaying id (none ∷ workers) = IsRelaying id workers
IsRelaying id (some job ∷ workers) = (id ≡ job.event_id) ⊎ IsRelaying id workers

-- The event's job is in the queue or runs, or has raised.
abbrev pub IsPending : String → Option Dispatcher → List String → Type 0
IsPending id none lost = IsIn id lost
IsPending id (some d) lost = IsQueued id d.queue ⊎ (IsRelaying id d.workers ⊎ IsIn id lost)

abbrev pub IsScheduled : Event → Type 0
IsScheduled row = row.relay.relay_status ≡ some "scheduled"

-- A row that says scheduled has a job.
abbrev pub IsAccounted : Option Dispatcher → List String → Event → Type 0
IsAccounted q lost row = IsScheduled row → IsPending row.id q lost

-- Where the queue and the workers change.
pub IsQueued-append :
    (id : String) (jobs more : List Job) → IsQueued id jobs → IsQueued id (jobs ++ more)
IsQueued-append id [] more h = elim h [ ]
IsQueued-append id (job ∷ jobs) more (inl same) = inl same
IsQueued-append id (job ∷ jobs) more (inr h) = inr (IsQueued-append id jobs more h)

pub IsQueued-last :
    (id : String) (jobs : List Job) (job : Job) → id ≡ job.event_id → IsQueued id (jobs ++ job ∷ [])
IsQueued-last id [] job same = inl same
IsQueued-last id (x ∷ jobs) job same = inr (IsQueued-last id jobs job same)

pub IsRelaying-started :
    (id : String) (job : Job) (before behind : List (Option Job))
    → ((id ≡ job.event_id) ⊎ IsRelaying id (before ++ none ∷ behind))
    → IsRelaying id (before ++ some job ∷ behind)
IsRelaying-started id job [] behind h = h
IsRelaying-started id job (none ∷ before) behind h = IsRelaying-started id job before behind h
IsRelaying-started id job (some other ∷ before) behind (inl same) =
    inr (IsRelaying-started id job before behind (inl same))
IsRelaying-started id job (some other ∷ before) behind (inr (inl same)) = inl same
IsRelaying-started id job (some other ∷ before) behind (inr (inr h)) =
    inr (IsRelaying-started id job before behind (inr h))

pub IsRelaying-ended :
    (id : String) (job : Job) (before behind : List (Option Job))
    → IsRelaying id (before ++ some job ∷ behind)
    → (id ≡ job.event_id) ⊎ IsRelaying id (before ++ none ∷ behind)
IsRelaying-ended id job [] behind h = h
IsRelaying-ended id job (none ∷ before) behind h = IsRelaying-ended id job before behind h
IsRelaying-ended id job (some other ∷ before) behind (inl same) = inr (inl same)
IsRelaying-ended id job (some other ∷ before) behind (inr h) =
    elim (IsRelaying-ended id job before behind h) [
      | inl same ↦ inl same
      | inr rest ↦ inr (inr rest)
    ]

module _ (p : Platform) (settings : Settings) (event : Event) (lost : List String) where
  -- The jobs that are there stay when an event is stored.
  pub IsPending-queued :
      (id : String) (q : Option Dispatcher) (d : Dispatcher)
      → q ≡ some d
      → IsPending id q lost
      → IsPending id (queued p settings event q) lost
  IsPending-queued id none d there h = h
  IsPending-queued id (some c) d there h =
      elim (Bool-cases (truthy settings.target_url && ltb (length c.queue) c.maxsize)) [
        | inl room ↦ rw room (elim h [
          | inl waits ↦ inl (IsQueued-append id c.queue _ waits)
          | inr other ↦ inr other
        ])
        | inr full ↦ rw full h
      ]

  -- An event that is stored as scheduled has its job in the queue.
  pub IsPending-planned :
      (q : Option Dispatcher) (d : Dispatcher)
      → q ≡ some d
      → (planned_columns settings q).relay_status ≡ some "scheduled"
      → IsPending event.id (queued p settings event q) lost
  IsPending-planned none d there h = cc
  IsPending-planned (some c) d there h = elim (Bool-cases (truthy settings.target_url)) [
    | inl target ↦ elim (Bool-cases (ltb (length c.queue) c.maxsize)) [
      | inl room ↦ rw target (rw room (inl (IsQueued-last event.id c.queue _ refl)))
      | inr full ↦ absurd (ground (arith, eq_iff "skipped" "scheduled"))
    ]
    | inr off ↦ absurd (ground arith)
  ]

-- A dispatcher stays a dispatcher.
pub queued-some :
    (p : Platform) (settings : Settings) (event : Event) (d : Dispatcher)
    → (d' : Dispatcher) × (queued p settings event (some d) ≡ some d') × (d'.workers ≡ d.workers)
queued-some p settings event d =
    elim (Bool-cases (truthy settings.target_url && ltb (length d.queue) d.maxsize)) [
      | inl room ↦
          (record d { queue = d.queue ++ relay_job p settings event ∷ [] }, rw room refl, refl)
      | inr full ↦ (d, rw full refl, refl)
    ]
