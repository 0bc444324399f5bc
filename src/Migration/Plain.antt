-- ===== src/Migration/Plain.antt =====
-- A schema as its tables and its indexes meets the assumptions on the operations.
pub mod Creation
pub mod Context
use webhook_relay_api.Prelude.{
  String, ◌≡◌, refl, Bool, true, false, not, ◌||◌, List, [], ◌∷◌, ◌++◌, any, keep, if◌then◌else◌,
}
use webhook_relay_api.Result.{Result, ok, err, other_error}
use webhook_relay_api.Migration.{Table, Index, is_table, is_index, is_index_of, Op}

pub record PlainSchema : Type 0 where
  pub tables : List Table
  pub indexes : List Index

abbrev refuse : Bool → PlainSchema → Result PlainSchema
refuse test s = if test then err (other_error "OperationalError") else ok s

unfoldable pub make_table : Table → PlainSchema → Result PlainSchema
make_table t s = refuse (any (is_table t.name) s.tables) (record s { tables = s.tables ++ t ∷ [] })

unfoldable pub make_index : Index → PlainSchema → Result PlainSchema
make_index i s =
    refuse (not (any (is_table i.table_name) s.tables) || any (is_index i.name) s.indexes)
      (record s { indexes = s.indexes ++ i ∷ [] })

unfoldable pub remove_index : String → PlainSchema → Result PlainSchema
remove_index name s =
    refuse (not (any (is_index name) s.indexes))
      (record s { indexes = keep (λ i. not (is_index name i)) s.indexes })

unfoldable pub remove_table : String → PlainSchema → Result PlainSchema
remove_table name s = refuse (not (any (is_table name) s.tables)) (record {
  tables = keep (λ t. not (is_table name t)) s.tables;
  indexes = keep (λ i. not (is_index_of name i)) s.indexes;
})

pub make_table_lem :
    (t : Table) (s : PlainSchema)
    → any (is_table t.name) s.tables ≡ false
    → (s' : PlainSchema) × (make_table t s ≡ ok s')
      × (s'.tables ≡ s.tables ++ t ∷ [])
      × (s'.indexes ≡ s.indexes)
unfolding make_table
make_table_lem t s free = (record s { tables = s.tables ++ t ∷ [] }, rw free refl, refl, refl)

pub make_index_lem :
    (i : Index) (s : PlainSchema)
    → any (is_table i.table_name) s.tables ≡ true
    → any (is_index i.name) s.indexes ≡ false
    → (s' : PlainSchema) × (make_index i s ≡ ok s')
      × (s'.tables ≡ s.tables)
      × (s'.indexes ≡ s.indexes ++ i ∷ [])
unfolding make_index
make_index_lem i s there free =
    (record s { indexes = s.indexes ++ i ∷ [] }, rw there (rw free refl), refl, refl)

pub remove_index_lem :
    (name : String) (s : PlainSchema)
    → any (is_index name) s.indexes ≡ true
    → (s' : PlainSchema) × (remove_index name s ≡ ok s')
      × (s'.tables ≡ s.tables)
      × (s'.indexes ≡ keep (λ i. not (is_index name i)) s.indexes)
unfolding remove_index
remove_index_lem name s there =
    (record s { indexes = keep (λ i. not (is_index name i)) s.indexes }, rw there refl, refl, refl)

pub remove_table_lem :
    (name : String) (s : PlainSchema)
    → any (is_table name) s.tables ≡ true
    → (s' : PlainSchema) × (remove_table name s ≡ ok s')
      × (s'.tables ≡ keep (λ t. not (is_table name t)) s.tables)
      × (s'.indexes ≡ keep (λ i. not (is_index_of name i)) s.indexes)
unfolding remove_table
remove_table_lem name s there = (_, rw there refl, refl, refl)

unfoldable pub plain : Op PlainSchema
unfolding make_table make_index remove_index remove_table
plain = record {
  tables = λ s. s.tables;
  indexes = λ s. s.indexes;
  create_table = make_table;
  create_index = make_index;
  drop_index = remove_index;
  drop_table = remove_table;
  create_table_lem = make_table_lem;
  create_index_lem = make_index_lem;
  drop_index_lem = remove_index_lem;
  drop_table_lem = remove_table_lem;
}
