-- ===== src/Event/Lookup.antt =====
-- What a table shows under an id, and how the statements change it.
use webhook_relay_api.Prelude.{
  String, ◌≡◌, refl, sym, ap, ◌∙◌, inl, inr, Bool, false, Option, none, some, List, [], ◌∷◌, ◌++◌,
  ◌==◌, eq_iff, if◌then◌else◌, any, keep, keep-true, keep-false, IsIn, Bool-cases, arith,
}
use webhook_relay_api.Event.{Event, RelayColumns, clashes}
use webhook_relay_api.Event.Unique.{IsUnique, any_of_IsIn}

abbrev pub lookup : String → List Event → Option Event
lookup id [] = none
lookup id (row ∷ rows) = if row.id == id then some row else lookup id rows

abbrev pub keep_if : (Event → Bool) → Option Event → Option Event
keep_if test none = none
keep_if test (some row) = if test row then some row else none

abbrev pub with_relay : RelayColumns → Option Event → Option Event
with_relay u none = none
with_relay u (some row) = some (record row { relay = u })

pub lookup-IsIn :
    (id : String) (rows : List Event) (row : Event)
    → lookup id rows ≡ some row
    → IsIn row rows × (row.id ≡ id)
lookup-IsIn id [] row h = cc
lookup-IsIn id (x ∷ rows) row h = elim (Bool-cases (x.id == id)) [
  | inl same ↦
      let own : x ≡ row = ground (arith, h, same) in
      (inl (sym own), ap (λ y. y.id) (sym own) ∙ (eq_iff x.id id).0 same)
  | inr other ↦
      let (there, named) = lookup-IsIn id rows row (ground (arith, h, other)) in (inr there, named)
]

-- Unique ids: a row is found under its own.
pub lookup_of_IsIn :
    (row : Event) (rows : List Event)
    → IsUnique rows
    → IsIn row rows
    → lookup row.id rows ≡ some row
unfolding clashes
lookup_of_IsIn row [] h m = elim m [ ]
lookup_of_IsIn row (x ∷ rows) (apart, h) (inl same) = rw same (rw ((eq_iff x.id x.id).1 refl) refl)
lookup_of_IsIn row (x ∷ rows) (apart, h) (inr m) = elim (Bool-cases (clashes x row)) [
  | inl clash ↦ absurd (ground (arith, apart, any_of_IsIn (clashes x) row rows m clash))
  | inr other ↦ ground (arith, lookup_of_IsIn row rows h m, eq_iff x.id row.id, eq_iff row.id x.id)
]

pub lookup-append :
    (id : String) (rows : List Event) (row : Event)
    → lookup row.id rows ≡ none
    → lookup id (rows ++ row ∷ []) ≡ (if row.id == id then some row else lookup id rows)
lookup-append id [] row free = refl
lookup-append id (x ∷ rows) row free =
    ground
      (arith, free, lookup-append id rows row, eq_iff x.id id, eq_iff row.id id, eq_iff x.id row.id)

-- A row that clashes with none has an id of its own.
pub lookup-none :
    (e : Event) (rows : List Event) → any (clashes e) rows ≡ false → lookup e.id rows ≡ none
unfolding clashes
lookup-none e [] h = refl
lookup-none e (x ∷ rows) h = ground (arith, lookup-none e rows)

-- Unique ids: what is deleted is not found under its id again.
pub lookup-keep :
    (test : Event → Bool) (id : String) (rows : List Event)
    → IsUnique rows
    → lookup id (keep test rows) ≡ keep_if test (lookup id rows)
lookup-keep test id [] h = refl
lookup-keep test id (x ∷ rows) (apart, h) = elim (Bool-cases (test x)) [
  | inl passes ↦ elim (Bool-cases (x.id == id)) [
    | inl own ↦ rw (keep-true test x rows passes) (rw own (rw passes refl))
    | inr other ↦ rw (keep-true test x rows passes) (rw other (lookup-keep test id rows h))
  ]
  | inr fails ↦ elim (Bool-cases (x.id == id)) [
    | inl own ↦
        let gone : lookup id rows ≡ none =
          ap (λ i. lookup i rows) (sym ((eq_iff x.id id).0 own)) ∙ lookup-none x rows apart in
        rw (keep-false test x rows fails)
          (lookup-keep test id rows h ∙ ap (keep_if test) gone ∙ rw own (rw fails refl))
    | inr other ↦ rw (keep-false test x rows fails) (rw other (lookup-keep test id rows h))
  ]
]
