-- ===== src/Routes/Admin/Retention.antt =====
-- What the retention cleanup deletes and who may start it.
use webhook_relay_api.Prelude.{
  ℕ, ◌+◌, String, ◌≡◌, refl, sym, subst, ap, ◌⊎◌, inl, inr, Option-cases, Bool, true, not, Option,
  none, some, List, [], ◌∷◌, arith, keep, length,
}
use webhook_relay_api.Prelude.Int.{ℤ}
use webhook_relay_api.Result.{Error, http_exception, ok, err, Result-cases}
use webhook_relay_api.Datetime.{minus_days}
use webhook_relay_api.Security.{require_admin_token}
use webhook_relay_api.Config.{Settings}
use webhook_relay_api.Event.{Event}
use webhook_relay_api.Event.Unique.{IsUnique, IsUnique-keep}
use webhook_relay_api.Database.{Database}
use webhook_relay_api.App.{App, get_db}
use webhook_relay_api.App.Keeps.{Keeps, keeps_rules, Keeps-get_db}
use webhook_relay_api.Routes.Intake.Constraints.{Rows, IsSound}
use webhook_relay_api.Routes.Admin.{is_older, cleanup_old_events, retention_or_400, admin_cleanup}

-- What is kept and what is deleted is all there is.
count_parts :
    (test : Event → Bool) (rows : List Event)
    → length (keep test rows) + length (keep (λ row. not (test row)) rows) ≡ length rows
count_parts test [] = refl
count_parts test (x ∷ rows) = ground (arith, count_parts test rows)

-- The rows `after` a cleanup of the rows `before` that reports `count`.
pub record IsCleanup (cutoff : ℕ) (before after : List Event) (count : ℕ) : Type 0 where
  pub kept : after ≡ keep (λ row. not (is_older cutoff row)) before
  pub accounted : count + length after ≡ length before

module _ {Db : Type 0} (db : Database Db) where
  delete-IsCleanup :
      (cutoff : ℕ) (d : Db)
      → IsCleanup cutoff
          (db.rows d)
          (db.rows (db.delete (is_older cutoff) d).0)
          (db.delete (is_older cutoff) d).1
  delete-IsCleanup cutoff d = record {
    kept = db.rows-delete (is_older cutoff) d;
    accounted =
        rw (db.rows-delete (is_older cutoff) d, db.count-delete (is_older cutoff) d)
          (count_parts (is_older cutoff) (db.rows d));
  }

  pub admin_cleanup-IsCleanup :
      (now : ℕ) (settings : Settings) (token : Option String) (days : ℤ) (cutoff : ℕ) (app : App Db)
      → require_admin_token token settings.admin_token ≡ ok tt
      → settings.event_retention_days ≡ some days
      → minus_days now days ≡ ok cutoff
      → app.session ≡ true
      → (d : Db) × (count : ℕ) × (admin_cleanup db now settings token app
          ≡ (ok count, record app { db = d }))
        × IsCleanup cutoff (db.rows app.db) (db.rows d) count
  unfolding admin_cleanup cleanup_old_events get_db
  admin_cleanup-IsCleanup now settings token days cutoff app allowed set time live = (
    (db.delete (is_older cutoff) app.db).0,
    (db.delete (is_older cutoff) app.db).1,
    rw allowed (rw set (rw time (rw live refl))),
    delete-IsCleanup cutoff app.db,
  )

  -- Where the token is refused, the cleanup raises what the check raises, and nothing changes.
  pub admin_cleanup_refused :
      (now : ℕ) (settings : Settings) (token : Option String) (e : Error) (app : App Db)
      → require_admin_token token settings.admin_token ≡ err e
      → admin_cleanup db now settings token app ≡ (err e, app)
  unfolding admin_cleanup
  admin_cleanup_refused now settings token e app refused = rw refused

  delete-Keeps :
      (cutoff : ℕ)
      → Keeps
          (IsSound db)
          (get_db (λ d. let (d', count) = db.delete (is_older cutoff) d in ok (count, d')))
  delete-Keeps cutoff = Keeps-get_db (Rows db) _ (λ d h.
      subst IsUnique (sym (db.rows-delete (is_older cutoff) d))
        (IsUnique-keep (λ row. not (is_older cutoff row)) (db.rows d) h))

  cleanup_old_events-Keeps :
      (now : ℕ) (days : ℤ) → Keeps (IsSound db) (cleanup_old_events db now days)
  unfolding cleanup_old_events
  cleanup_old_events-Keeps now days = search (keeps_rules, delete-Keeps)

  retention-Keeps : (retention : Option ℤ) → Keeps (IsSound db) (retention_or_400 db retention)
  retention-Keeps none = search keeps_rules
  retention-Keeps (some days) = search keeps_rules

  admin_cleanup-Keeps :
      (now : ℕ) (settings : Settings) (token : Option String)
      → Keeps (IsSound db) (admin_cleanup db now settings token)
  unfolding admin_cleanup
  admin_cleanup-Keeps now settings token =
      search (keeps_rules, retention-Keeps, cleanup_old_events-Keeps)

  -- However the cleanup ends, the ids of the rows and their pairs of source and idempotency key stay
  -- distinct, if they were.
  pub admin_cleanup-IsSound :
      (now : ℕ) (settings : Settings) (token : Option String) (app : App Db)
      → IsSound db app
      → IsSound db (admin_cleanup db now settings token app).1
  admin_cleanup-IsSound now settings token app h = (admin_cleanup-Keeps now settings token).at app h

  -- A cleanup raises and changes nothing, or has what it takes and is answered with the count.
  pub data CleanupEnding (now : ℕ) (settings : Settings) (token : Option String) (app : App Db)
      : Type 0 where
    not_cleaned :
        (e : Error)
        → admin_cleanup db now settings token app ≡ (err e, app)
        → CleanupEnding now settings token app
    cleaned :
        (days : ℤ) (cutoff : ℕ) (d : Db) (count : ℕ)
        → require_admin_token token settings.admin_token ≡ ok tt
        → settings.event_retention_days ≡ some days
        → minus_days now days ≡ ok cutoff
        → admin_cleanup db now settings token app ≡ (ok count, record app { db = d })
        → IsCleanup cutoff (db.rows app.db) (db.rows d) count
        → CleanupEnding now settings token app

  pub admin_cleanup-CleanupEnding :
      (now : ℕ) (settings : Settings) (token : Option String) (app : App Db)
      → app.session ≡ true
      → CleanupEnding now settings token app
  unfolding admin_cleanup cleanup_old_events
  admin_cleanup-CleanupEnding now settings token app live =
      elim (Result-cases (require_admin_token token settings.admin_token)) [
        | inr (e, refused) ↦ not_cleaned e (admin_cleanup_refused now settings token e app refused)
        | inl (_, allowed) ↦ elim (Option-cases settings.event_retention_days) [
          | inl unset ↦
              not_cleaned (http_exception 400 "EVENT_RETENTION_DAYS is not set")
                (rw allowed (rw unset refl))
          | inr (days, set) ↦ elim (Result-cases (minus_days now days)) [
            | inr (e, no_time) ↦ not_cleaned e (rw allowed (rw set (rw no_time refl)))
            | inl (cutoff, time) ↦
                let (d, count, run, good) =
                  admin_cleanup-IsCleanup now settings token days cutoff app allowed set time
                    live in
                cleaned days cutoff d count allowed set time run good
          ]
        ]
      ]

  -- A cleanup changes nothing, or nothing but the rows, of which some remain.
  pub admin_cleanup_cases :
      (now : ℕ) (settings : Settings) (token : Option String) (app : App Db)
      → app.session ≡ true
      → ((admin_cleanup db now settings token app).1 ≡ app)
        ⊎ ((cutoff : ℕ) × (d : Db) × ((admin_cleanup db now settings token app).1
              ≡ record app { db = d })
            × (db.rows d ≡ keep (λ row. not (is_older cutoff row)) (db.rows app.db)))
  admin_cleanup_cases now settings token app live =
      elim (admin_cleanup-CleanupEnding now settings token app live) [
        | not_cleaned e run ↦ inl (ap (λ x. x.1) run)
        | cleaned days cutoff d count allowed set time run good ↦
            inr (cutoff, d, ap (λ x. x.1) run, good.kept)
      ]
