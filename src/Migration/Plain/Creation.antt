-- ===== src/Migration/Plain/Creation.antt =====
-- The creation of a table with its indexes, on a schema as its tables and its indexes.
use mathlib.Core.List.{Perm, append_assoc, append-nil}
use mathlib.Core.List.Perm
use webhook_relay_api.Prelude.{
  String, ◌≡◌, refl, sym, ap, ◌∙◌, subst, true, false, List, [], ◌∷◌, ◌++◌, All, any, arith, eq_iff,
  if◌then◌else◌,
}
use webhook_relay_api.Prelude.Alls.{All-both}
use webhook_relay_api.Result.{Result, ok, other_error, ◌>>=◌}
use webhook_relay_api.Migration.{Table, Index, is_table, is_index}
use webhook_relay_api.Migration.Names.{free_with, any_with}
use webhook_relay_api.Migration.Model.{Creation, distinct_names}
use webhook_relay_api.Migration.Plain.{PlainSchema, plain, make_table, make_index}

unfoldable pub make_indexes : List Index → PlainSchema → Result PlainSchema
make_indexes [] s = ok s
make_indexes (i ∷ indexes) s = do s' ← make_index i s; make_indexes indexes s'

unfoldable pub make_all : Table → List Index → PlainSchema → Result PlainSchema
make_all t indexes s =
    if any (is_table t.name) s.tables then ok s else do s' ← make_table t s; make_indexes indexes s'

-- What is free stays free when an index of another name is made.
still_free :
    (i : Index) (more indexes : List Index)
    → any (is_index i.name) more ≡ false
    → All (λ j. any (is_index j.name) indexes ≡ false) more
    → All (λ j. any (is_index j.name) (indexes ++ i ∷ []) ≡ false) more
still_free i more indexes apart free =
    All-both (λ j. any (is_index j.name) indexes ≡ false)
      (λ j. any (is_index j.name) (indexes ++ i ∷ []) ≡ false) (is_index i.name) more
      (λ j other h.
        free_with (is_index j.name) indexes i h
          (ground (arith, other, eq_iff j.name i.name, eq_iff i.name j.name)))
      apart free

make_indexes_lem :
    (name : String) (indexes : List Index) (s : PlainSchema)
    → any (is_table name) s.tables ≡ true
    → All (λ i. i.table_name ≡ name) indexes
    → All (λ i. any (is_index i.name) s.indexes ≡ false) indexes
    → distinct_names indexes ≡ true
    → (s' : PlainSchema) × (make_indexes indexes s ≡ ok s')
      × (s'.tables ≡ s.tables)
      × (s'.indexes ≡ s.indexes ++ indexes)
unfolding make_indexes make_index
make_indexes_lem name [] s there on free apart = (s, refl, refl, sym (append-nil s.indexes))
make_indexes_lem name (i ∷ indexes) s there (own, on) (first, free) apart =
    let (s', made, tables, all) =
      make_indexes_lem name indexes (record s { indexes = s.indexes ++ i ∷ [] }) there on
        (still_free i indexes s.indexes (ground (arith, apart)) free) (ground (arith, apart)) in
    (
      s',
      rw (ap (λ n. any (is_table n) s.tables) own ∙ there) (rw first made),
      tables,
      all ∙ append_assoc s.indexes (i ∷ []) indexes,
    )

pub make_all_new :
    (t : Table) (indexes : List Index) (s : PlainSchema)
    → any (is_table t.name) s.tables ≡ false
    → All (λ i. i.table_name ≡ t.name) indexes
    → All (λ i. any (is_index i.name) s.indexes ≡ false) indexes
    → distinct_names indexes ≡ true
    → (s' : PlainSchema) × (make_all t indexes s ≡ ok s')
      × (s'.tables ≡ s.tables ++ t ∷ [])
      × Perm s'.indexes (s.indexes ++ indexes)
unfolding make_all make_table
make_all_new t indexes s none_yet on free apart =
    let (s', made, tables, all) =
      make_indexes_lem t.name indexes (record s { tables = s.tables ++ t ∷ [] })
        (any_with (is_table t.name) s.tables t ((eq_iff t.name t.name).1 refl)) on free apart in
    (
      s',
      rw none_yet made,
      tables,
      subst (λ l. Perm l (s.indexes ++ indexes)) (sym all) (Perm.refl (s.indexes ++ indexes)),
    )

unfoldable pub plain_creation : Creation plain
unfolding plain make_table make_all
plain_creation = record {
  create_all = make_all;
  create_all_there = λ t indexes s there. rw there refl;
  create_all_new = make_all_new;
  create_table_taken = λ t s there. (other_error "OperationalError", rw there refl);
}
