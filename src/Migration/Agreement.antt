-- ===== src/Migration/Agreement.antt =====
-- The schema of the migration against that of the models.
use mathlib.Core.List.{Perm, perm_append_comm}
use mathlib.Core.List.Perm
use webhook_relay_api.Prelude.{
  ◌≡◌, refl, sym, ap, ◌∙◌, subst, false, none, List, [], ◌∷◌, ◌++◌, any, map,
}
use webhook_relay_api.Result.{Error, ok, err}
use webhook_relay_api.Migration.{
  Column, Table, Index, is_table, Op, upgrade, events_table, ix_idempotency_key, ix_received_at,
  ix_request_id, ix_source, ix_received_at_id, ix_source_received_at_id,
}
use webhook_relay_api.Migration.Names.{any_with}
use webhook_relay_api.Migration.Roundtrip.{IsFree, made, upgrade-Holds}
use webhook_relay_api.Migration.Model.{model_table, model_indexes, Creation, create_events}

abbrev pub no_default : Column → Column
no_default column = record column { server_default = none }

-- A table without the defaults of the database.
abbrev pub no_defaults : Table → Table
no_defaults t = record t { columns = map no_default t.columns }

map-last :
    {A B : Type 0} (f : A → B) (l : List A) (x : A) → map f (l ++ x ∷ []) ≡ map f l ++ f x ∷ []
map-last f [] x = refl
map-last f (y ∷ l) x = ap (λ m. f y ∷ m) (map-last f l x)

abbrev migrated_indexes : List Index
migrated_indexes =
    ix_idempotency_key ∷ ix_received_at ∷ ix_request_id ∷ ix_source ∷ ix_received_at_id
    ∷ ix_source_received_at_id ∷ []

made_lem : (indexes : List Index) → made indexes ≡ indexes ++ migrated_indexes
made_lem [] = refl
made_lem (i ∷ indexes) = ap (λ l. i ∷ l) (made_lem indexes)

-- The same indexes in another order: the first and the fourth are exchanged.
migrated-model : Perm migrated_indexes model_indexes
migrated-model =
    let key = ix_idempotency_key ∷ [] in
    let middle = ix_received_at ∷ ix_request_id ∷ [] in
    let source = ix_source ∷ [] in
    Perm.append_right (ix_received_at_id ∷ ix_source_received_at_id ∷ []) (
      Perm.trans (perm_append_comm key (middle ++ source))
        (Perm.append_right key (perm_append_comm middle source)))

module _ {Schema : Type 0} (op : Op Schema) (creation : Creation op) where
  -- On a schema without the table, its indexes and their names: the migration and `create_all` both
  -- succeed and make the same schema, but for the order of the indexes and the defaults of the columns
  -- in the database. After the migration `create_all` changes nothing; after `create_all` the migration
  -- fails.
  pub upgrade-create_events :
      (s : Schema)
      → any (is_table "events") (op.tables s) ≡ false
      → IsFree (op.indexes s)
      → (migrated : Schema) × (created : Schema) × (e : Error) × (upgrade op s ≡ ok migrated)
        × (create_events creation s ≡ ok created)
        × (map no_defaults (op.tables migrated) ≡ map no_defaults (op.tables created))
        × Perm (op.indexes migrated) (op.indexes created)
        × (create_events creation migrated ≡ ok migrated)
        × (upgrade op created ≡ err e)
  unfolding create_events upgrade
  upgrade-create_events s none_yet free =
      let (migrated, went_up, holds) =
        upgrade-Holds op (op.tables s) (op.indexes s) free s
          (record { tables_are = refl; indexes_are = refl }) none_yet in
      let (created, ran, tables, indexes) =
        creation.create_all_new model_table model_indexes s none_yet
          (refl, (refl, (refl, (refl, (refl, (refl, tt))))))
          (free.3, (free.1, (free.2, (free.0, (free.4, (free.5, tt)))))) refl in
      let (e, taken) = creation.create_table_taken events_table created (
        ap (any (is_table "events")) tables
        ∙ any_with (is_table "events") (op.tables s) model_table refl) in
      (
        migrated,
        created,
        e,
        went_up,
        ran,
        ap (map no_defaults) holds.tables_are
            ∙ map-last no_defaults (op.tables s) events_table
            ∙ sym (ap (map no_defaults) tables ∙ map-last no_defaults (op.tables s) model_table),
        Perm.trans
            (subst (λ l. Perm l (op.indexes s ++ model_indexes))
              (sym (holds.indexes_are ∙ made_lem (op.indexes s)))
              (Perm.append_left (op.indexes s) migrated-model))
            (Perm.symm indexes),
        creation.create_all_there model_table model_indexes migrated (
            ap (any (is_table "events")) holds.tables_are
            ∙ any_with (is_table "events") (op.tables s) events_table refl),
        rw taken refl,
      )
