-- ===== src/System/Drain.antt =====
-- The workers come to an end of their work.
use webhook_relay_api.Prelude.{
  ℕ, zero, suc, ◌+◌, ◌*◌, ◌≤◌, String, ◌≡◌, refl, ap, ◌⊎◌, inl, inr, Option, none, some, List, [],
  ◌∷◌, ◌++◌, arith, length, subst,
}
use webhook_relay_api.Result.{Result-cases}
use webhook_relay_api.App.{Job, Dispatcher, App}
use webhook_relay_api.Platform.{Platform}
use webhook_relay_api.Database.{Database}
use webhook_relay_api.Relay.Attempts.{Network}
use webhook_relay_api.Routes.Background.{relay_and_persist}
use webhook_relay_api.System.{
  count_running, turns_left, Turn, take_job, job_done, job_failed, turned, Turns, stay, next,
}

count_running-some :
    (before : List (Option Job)) (job : Job) (behind : List (Option Job))
    → count_running (before ++ some job ∷ behind) ≡ suc (count_running (before ++ none ∷ behind))
count_running-some [] job behind = omega arith
count_running-some (none ∷ before) job behind = count_running-some before job behind
count_running-some (some other ∷ before) job behind =
    omega (arith, count_running-some before job behind)

-- A worker that runs a job, or none.
running_or_idle :
    (workers : List (Option Job))
    → 1 ≤ count_running workers
    → (before : List (Option Job)) × (job : Job) × (behind : List (Option Job)) × (workers
        ≡ before ++ some job ∷ behind)
running_or_idle [] h = absurd (omega arith)
running_or_idle (some job ∷ workers) h = ([], job, workers, refl)
running_or_idle (none ∷ workers) h =
    let (before, job, behind, e) = running_or_idle workers h in
    (none ∷ before, job, behind, ap (λ l. none ∷ l) e)

Nat-cases : (n : ℕ) → (n ≡ 0) ⊎ (1 ≤ n)
Nat-cases zero = inl refl
Nat-cases (suc n) = inr (omega arith)

first_of : (l : List Job) → 1 ≤ length l → (job : Job) × (rest : List Job) × (l ≡ job ∷ rest)
first_of [] h = absurd (omega arith)
first_of (job ∷ rest) h = (job, rest, refl)

none_runs :
    (workers : List (Option Job))
    → count_running workers ≡ 0
    → 1 ≤ length workers
    → (behind : List (Option Job)) × (workers ≡ none ∷ behind)
none_runs [] h staffed = absurd (omega arith)
none_runs (some job ∷ workers) h staffed = absurd (omega arith)
none_runs (none ∷ workers) h staffed = (workers, refl)

-- A job runs, or one is queued and a worker is idle.
working_or_queued :
    (d : Dispatcher)
    → 1 ≤ turns_left (some d)
    → 1 ≤ length d.workers
    → ((before : List (Option Job)) × (job : Job) × (behind : List (Option Job)) × (d.workers
          ≡ before ++ some job ∷ behind))
      ⊎ ((job : Job) × (queue : List Job) × (behind : List (Option Job)) × (d.queue ≡ job ∷ queue)
          × (d.workers ≡ none ∷ behind))
working_or_queued d left staffed = elim (Nat-cases (count_running d.workers)) [
  | inl off ↦
      let (behind, idle) = none_runs d.workers off staffed in
      let (job, queue, first) = first_of d.queue (omega arith) in
      inr (job, queue, behind, first, idle)
  | inr on ↦ inl (running_or_idle d.workers on)
]

turns_left-some :
    (q : Option Dispatcher) (d : Dispatcher)
    → q ≡ some d
    → turns_left q ≡ 2 * length d.queue + count_running d.workers
turns_left-some q d e = ap turns_left e

module _ {Db : Type 0} (db : Database Db) (p : Platform) where
  -- Each turn is one of those that were left.
  pub Turn-turns_left :
      {app : App Db} (t : Turn db p app)
      → suc (turns_left (turned db p t).dispatcher) ≡ turns_left app.dispatcher
  Turn-turns_left {app} (take_job d job queue before behind e first idle) = omega (
    arith,
    turns_left-some app.dispatcher d e,
    ap length first,
    ap count_running idle,
    count_running-some before job behind,
  )
  Turn-turns_left {app} (job_done d job before behind net begin done e runs ran) = omega (
    arith,
    turns_left-some app.dispatcher d e,
    ap count_running runs,
    count_running-some before job behind,
  )
  Turn-turns_left {app} (job_failed d job before behind net begin done x e runs ran) = omega (
    arith,
    turns_left-some app.dispatcher d e,
    ap count_running runs,
    count_running-some before job behind,
  )

  -- However the workers' turns follow each other, with no request and no cleanup between them, each
  -- takes one off the turns that are left, so that they end: there are never more turns than two for
  -- each queued job and one for each job that runs.
  pub Turns-turns_left :
      {n : ℕ} {lost lost' : List String} {app app' : App Db}
      → Turns db p n lost app lost' app'
      → n + turns_left app'.dispatcher ≡ turns_left app.dispatcher
  Turns-turns_left (stay lost app) = omega arith
  Turns-turns_left (next t so_far) = omega (arith, Turn-turns_left t, Turns-turns_left so_far)

  -- The job that ends in a turn, if one does, ran against this network.
  abbrev pub Asked : Network → {app : App Db} → Turn db p app → Type 0
  Asked answers (take_job d job queue before behind e first idle) = Unit
  Asked answers (job_done d job before behind net begin done e runs ran) = net ≡ answers
  Asked answers (job_failed d job before behind net begin done x e runs ran) = net ≡ answers

  -- Where a worker is there, a turn that is left can be taken against any network.
  pub turn_of :
      (net : Network) (app : App Db) (d : Dispatcher)
      → app.dispatcher ≡ some d
      → 1 ≤ length d.workers
      → 1 ≤ turns_left app.dispatcher
      → (t : Turn db p app) × Asked net t
  turn_of net app d e staffed left =
      elim (working_or_queued d (subst (λ q. 1 ≤ turns_left q) e left) staffed) [
        | inl (before, job, behind, runs) ↦
            let ended = relay_and_persist db p net (λ _. app) job app in
            elim (Result-cases ended.0) [
              | inl (_, returned) ↦ (
                job_done d job before behind net app ended.1 e runs (λ i. (returned i, ended.1)),
                refl,
              )
              | inr (x, raised) ↦ (
                job_failed d job before behind net app ended.1 x e runs (λ i. (raised i, ended.1)),
                refl,
              )
            ]
        | inr (job, queue, behind, first, idle) ↦ (take_job d job queue [] behind e first idle, tt)
      ]
