-- ===== src/System/Moves.antt =====
-- What a turn of a worker does to the rows and to their jobs.
use webhook_relay_api.Prelude.{
  String, ◌≡◌, ◌≢◌, ◌⊎◌, inl, inr, Option, none, some, List, ◌∷◌, ◌++◌, arith, Bool-cases, subst,
  ◌==◌, eq_iff,
}
use webhook_relay_api.App.{Job, Dispatcher}
use webhook_relay_api.Event.{Event}
use webhook_relay_api.Database.{Database, set_relay, stored_columns}
use webhook_relay_api.Relay.{RelayResult}
use webhook_relay_api.Routes.{relay_update_values, relay_status_of}
use webhook_relay_api.System.Pending.{
  IsQueued, IsRelaying, IsPending, IsAccounted, IsRelaying-started, IsRelaying-ended,
}

-- No relay result says scheduled.
pub some_injective : {A : Type 0} {a b : A} → some a ≡ some b → a ≡ b
some_injective h = cc

pub not_scheduled : (r : RelayResult) → relay_status_of r ≢ "scheduled"
not_scheduled r h = absurd (
    ground (
      arith,
      eq_iff "skipped" "scheduled",
      eq_iff "success" "scheduled",
      eq_iff "failed" "scheduled",
    ))

module _ {Db : Type 0} (db : Database Db) where
  module _ (lost : List String) (d : Dispatcher) (job : Job)
      (before behind : List (Option Job)) where
    -- The dispatcher when the job has ended.
    abbrev pub ended : Dispatcher
    ended = record d { workers = before ++ none ∷ behind }

    -- The job's own event aside, every event keeps its job.
    ended-IsPending :
        (id : String)
        → d.workers ≡ before ++ some job ∷ behind
        → IsPending id (some d) lost
        → (id ≡ job.event_id) ⊎ IsPending id (some ended) lost
    ended-IsPending id runs (inl h) = inr (inl h)
    ended-IsPending id runs (inr (inl h)) =
        elim (IsRelaying-ended id job before behind (subst (IsRelaying id) runs h)) [
          | inl same ↦ inl same
          | inr other ↦ inr (inr (inl other))
        ]
    ended-IsPending id runs (inr (inr h)) = inr (inr (inr h))

    pub done-IsAccounted :
        (r : RelayResult) (row : Event)
        → d.workers ≡ before ++ some job ∷ behind
        → IsAccounted (some d) lost row
        → IsAccounted
            (some ended)
            lost
            (set_relay job.event_id (stored_columns db.store_time (relay_update_values r)) row)
    unfolding relay_update_values
    done-IsAccounted r row runs h = elim (Bool-cases (row.id == job.event_id)) [
      | inl same ↦ rw same λ wrong. absurd (not_scheduled r (some_injective wrong))
      | inr other ↦ rw other λ scheduled. elim (ended-IsPending row.id runs (h scheduled)) [
        | inl same ↦ absurd (ground (arith, eq_iff row.id job.event_id))
        | inr pending ↦ pending
      ]
    ]

    pub failed-IsAccounted :
        (row : Event)
        → d.workers ≡ before ++ some job ∷ behind
        → IsAccounted (some d) lost row
        → IsAccounted (some ended) (job.event_id ∷ lost) row
    failed-IsAccounted row runs h scheduled = elim (ended-IsPending row.id runs (h scheduled)) [
      | inl same ↦ inr (inr (inl same))
      | inr (inl waits) ↦ inl waits
      | inr (inr (inl works)) ↦ inr (inl works)
      | inr (inr (inr gone)) ↦ inr (inr (inr gone))
    ]

    pub taken-IsAccounted :
        (queue : List Job) (row : Event)
        → d.queue ≡ job ∷ queue
        → d.workers ≡ before ++ none ∷ behind
        → IsAccounted (some d) lost row
        → IsAccounted
            (some (record d { queue = queue; workers = before ++ some job ∷ behind }))
            lost
            row
    taken-IsAccounted queue row first idle h scheduled = elim (h scheduled) [
      | inl waits ↦ elim (subst (IsQueued row.id) first waits) [
        | inl same ↦ inr (inl (IsRelaying-started row.id job before behind (inl same)))
        | inr rest ↦ inl rest
      ]
      | inr (inl works) ↦ inr (
          inl (
            IsRelaying-started row.id job before behind
              (inr (subst (IsRelaying row.id) idle works))))
      | inr (inr gone) ↦ inr (inr gone)
    ]
