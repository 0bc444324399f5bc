-- ===== src/System/Ledger.antt =====
-- What the service promises of its events, with no queue, no workers and no table: under each id an
-- event or none. Events are added with a new id and a pair of source and key of their own, an event
-- that waits for its relay is settled once, and old events expire. Nothing else changes an event.
use webhook_relay_api.Prelude.{
  ℕ, String, ◌≡◌, ◌⊎◌, inl, inr, false, not, Option, none, some, ◌==◌, if◌then◌else◌, eq_iff,
  Bool-cases, arith, sym, ap, ◌∙◌,
}
use webhook_relay_api.Event.{Event, RelayColumns, no_relay, clashes}
use webhook_relay_api.Event.Lookup.{keep_if}
use webhook_relay_api.Routes.Request.{scheduled_columns, queue_full_columns}
use webhook_relay_api.Routes.Admin.{is_older}
use webhook_relay_api.System.Pending.{IsScheduled}

abbrev pub Ledger : Type 0
Ledger = String → Option Event

-- No relay is wanted, or it is scheduled, or there was no room for it.
abbrev pub IsNew : RelayColumns → Type 0
IsNew u = (u ≡ no_relay) ⊎ ((u ≡ scheduled_columns) ⊎ (u ≡ queue_full_columns))

abbrev pub Same : Ledger → Ledger → Type 0
Same f g = (id : String) → g id ≡ f id

-- A new event comes in, with an id and a pair of source and key that no other event has.
abbrev pub Adds : Event → Ledger → Ledger → Type 0
Adds e f g =
    IsNew e.relay
    × ((id : String) (other : Event) → f id ≡ some other → clashes e other ≡ false)
    × ((id : String) → g id ≡ (if e.id == id then some e else f id))

-- The event under the id, if there is one, waited for its relay and gets these columns.
abbrev pub Settles : String → RelayColumns → Ledger → Ledger → Type 0
Settles target u f g =
    ((f target ≡ none) × Same f g)
    ⊎ ((e : Event) × (f target ≡ some e)
        × IsScheduled e
        × ((id : String) → g id ≡ (if target == id then some (record e { relay = u }) else f id)))

-- The events before the cutoff are gone.
abbrev pub Expires : ℕ → Ledger → Ledger → Type 0
Expires cutoff f g = (id : String) → g id ≡ keep_if (λ row. not (is_older cutoff row)) (f id)

-- What a request, a worker or a restart does.
pub data Change (f g : Ledger) : Type 0 where
  stay : Same f g → Change f g
  add : (e : Event) → Adds e f g → Change f g
  settle : (target : String) (u : RelayColumns) → Settles target u f g → Change f g

-- A change leaves an event that does not wait for its relay as it is.
pub Change-final :
    {f g : Ledger} (id : String) (e : Event)
    → Change f g
    → f id ≡ some e
    → e.id ≡ id
    → ¬ IsScheduled e
    → g id ≡ some e
unfolding clashes
Change-final id e (stay same) there named settled = same id ∙ there
Change-final id e (add new (fresh, apart, same)) there named settled =
    let other = apart id e there in
    same id ∙ ground (arith, there, other, eq_iff new.id id, eq_iff e.id new.id, named)
Change-final id e (settle target u (inl (nothing, same))) there named settled = same id ∙ there
Change-final {f} id e (settle target u (inr (old, held, waits, same))) there named settled =
    elim (Bool-cases (target == id)) [
      | inl own ↦
          let one : old ≡ e = ground (arith, held, there, ap f ((eq_iff target id).0 own)) in
          absurd (settled (ap (λ x. x.relay.relay_status) (sym one) ∙ waits))
      | inr apart ↦ same id ∙ ground (arith, apart, there)
    ]
