-- ===== src/Database/View.antt =====
-- The table as a client reads it, one id at a time.
use webhook_relay_api.Prelude.{
  String, ◌≡◌, refl, sym, ap, ◌∙◌, inl, inr, Bool, none, some, List, [], ◌∷◌, map, ◌==◌, eq_iff,
  if◌then◌else◌, keep, keep-true, keep-false, Bool-cases, Option-cases, arith,
}
use webhook_relay_api.Event.{Event, RelayColumns}
use webhook_relay_api.Event.Lookup.{lookup, with_relay}
use webhook_relay_api.Database.{Database, set_relay}

abbrev has_id : String → Event → Bool
has_id id row = row.id == id

keep-lookup-some :
    (id : String) (rows : List Event) (row : Event)
    → lookup id rows ≡ some row
    → (more : List Event) × (keep (has_id id) rows ≡ row ∷ more)
keep-lookup-some id [] row h = cc
keep-lookup-some id (x ∷ rows) row h = elim (Bool-cases (x.id == id)) [
  | inl own ↦
      let same : x ≡ row = ground (arith, h, own) in
      (
        keep (has_id id) rows,
        keep-true (has_id id) x rows own ∙ ap (λ y. y ∷ keep (has_id id) rows) same,
      )
  | inr other ↦
      let (more, rest) = keep-lookup-some id rows row (ground (arith, h, other)) in
      (more, keep-false (has_id id) x rows other ∙ rest)
]

keep-lookup-none :
    (id : String) (rows : List Event) → lookup id rows ≡ none → keep (has_id id) rows ≡ []
keep-lookup-none id [] h = refl
keep-lookup-none id (x ∷ rows) h = elim (Bool-cases (x.id == id)) [
  | inl own ↦ ground (arith, h, own)
  | inr other ↦
      keep-false (has_id id) x rows other ∙ keep-lookup-none id rows (ground (arith, h, other))
]

-- An update changes what is found under its id, and nothing else.
pub lookup-set_relay :
    (id : String) (target : String) (u : RelayColumns) (rows : List Event)
    → lookup id (map (set_relay target u) rows)
      ≡ (if target == id then with_relay u (lookup id rows) else lookup id rows)
lookup-set_relay id target u [] = ground arith
lookup-set_relay id target u (x ∷ rows) = elim (Bool-cases (x.id == target)) [
  | inl own ↦ ground (
    arith,
    own,
    lookup-set_relay id target u rows,
    eq_iff x.id target,
    eq_iff target id,
    eq_iff x.id id,
  )
  | inr other ↦ ground (
    arith,
    other,
    lookup-set_relay id target u rows,
    eq_iff x.id target,
    eq_iff target id,
    eq_iff x.id id,
  )
]

-- `db.get(Event, id)` finds the first row with the id.
module _ {Db : Type 0} (db : Database Db) where
  pub get-lookup : (id : String) (d : Db) → db.get id d ≡ lookup id (db.rows d)
  get-lookup id d = elim (Option-cases (lookup id (db.rows d))) [
    | inl nothing ↦ db.get_lem id d (keep-lookup-none id (db.rows d) nothing) ∙ sym nothing
    | inr (row, found) ↦
        let (more, first) = keep-lookup-some id (db.rows d) row found in
        db.get_first id d row more first ∙ sym found
  ]
