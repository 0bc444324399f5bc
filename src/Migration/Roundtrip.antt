-- ===== src/Migration/Roundtrip.antt =====
-- The downgrade takes back what the upgrade made.
use webhook_relay_api.Prelude.{
  ◌≡◌, refl, ap, ◌∙◌, true, false, List, [], ◌∷◌, ◌++◌, any, keep, eq_iff,
}
use webhook_relay_api.Result.{ok}
use webhook_relay_api.Migration.{
  Table, Index, is_table, is_index, is_index_of, Op, events_table, ix_idempotency_key,
  ix_received_at, ix_request_id, ix_source, ix_received_at_id, ix_source_received_at_id, upgrade,
  downgrade,
}
use webhook_relay_api.Migration.Names.{keep_init, keep_all, any_with, free_with}

-- The indexes of the upgrade, after those that there were.
abbrev pub made : List Index → List Index
made indexes =
    (((((indexes ++ ix_idempotency_key ∷ []) ++ ix_received_at ∷ []) ++ ix_request_id ∷ [])
        ++ ix_source ∷ [])
      ++ ix_received_at_id ∷ [])
    ++ ix_source_received_at_id ∷ []

-- The names of the six indexes are free.
abbrev pub IsFree : List Index → Type 0
IsFree indexes =
    (any (is_index "ix_events_idempotency_key") indexes ≡ false)
    × (any (is_index "ix_events_received_at") indexes ≡ false)
    × (any (is_index "ix_events_request_id") indexes ≡ false)
    × (any (is_index "ix_events_source") indexes ≡ false)
    × (any (is_index "ix_events_received_at_id") indexes ≡ false)
    × (any (is_index "ix_events_source_received_at_id") indexes ≡ false)

module _ {Schema : Type 0} (op : Op Schema) where
  -- The tables and indexes of a schema.
  pub record Holds (s : Schema) (tables : List Table) (indexes : List Index) : Type 0 where
    pub tables_are : op.tables s ≡ tables
    pub indexes_are : op.indexes s ≡ indexes

  create_index_step :
      (i : Index) {s : Schema} (tables : List Table) (indexes : List Index)
      → Holds s tables indexes
      → any (is_table i.table_name) tables ≡ true
      → any (is_index i.name) indexes ≡ false
      → (s' : Schema) × (op.create_index i s ≡ ok s') × Holds s' tables (indexes ++ i ∷ [])
  create_index_step i {s} tables indexes h there free =
      let (s', made, same, more) =
        op.create_index_lem i s (ap (any _) h.tables_are ∙ there)
          (ap (any _) h.indexes_are ∙ free) in
      (
        s',
        made,
        record {
          tables_are = same ∙ h.tables_are;
          indexes_are = more ∙ ap (λ l. l ++ i ∷ []) h.indexes_are;
        },
      )

  drop_index_step :
      (i : Index) {s : Schema} (tables : List Table) (indexes : List Index)
      → Holds s tables (indexes ++ i ∷ [])
      → any (is_index i.name) indexes ≡ false
      → (s' : Schema) × (op.drop_index i.name s ≡ ok s') × Holds s' tables indexes
  drop_index_step i {s} tables indexes h free =
      let own : is_index i.name i ≡ true = (eq_iff i.name i.name).1 refl in
      let (s', done, same, less) =
        op.drop_index_lem i.name s
          (ap (any _) h.indexes_are ∙ any_with (is_index i.name) indexes i own) in
      (
        s',
        done,
        record {
          tables_are = same ∙ h.tables_are;
          indexes_are =
              less ∙ ap (keep _) h.indexes_are ∙ keep_init (is_index i.name) indexes i free own;
        },
      )

  module _ (tables : List Table) (indexes : List Index) (free : IsFree indexes) where
    abbrev pub with_table : List Table
    with_table = tables ++ events_table ∷ []

    -- The indexes after the first steps.
    abbrev pub grown_1 : List Index
    grown_1 = indexes ++ ix_idempotency_key ∷ []

    abbrev pub grown_2 : List Index
    grown_2 = grown_1 ++ ix_received_at ∷ []

    abbrev pub grown_3 : List Index
    grown_3 = grown_2 ++ ix_request_id ∷ []

    abbrev pub grown_4 : List Index
    grown_4 = grown_3 ++ ix_source ∷ []

    abbrev pub grown_5 : List Index
    grown_5 = grown_4 ++ ix_received_at_id ∷ []

    abbrev pub grown_6 : List Index
    grown_6 = grown_5 ++ ix_source_received_at_id ∷ []

    -- The name of each is free when it is made.
    free_1 : any (is_index ix_idempotency_key.name) indexes ≡ false
    free_1 = free.0

    free_2 : any (is_index ix_received_at.name) grown_1 ≡ false
    free_2 = free_with (is_index ix_received_at.name) indexes ix_idempotency_key (free.1) refl

    free_3 : any (is_index ix_request_id.name) grown_2 ≡ false
    free_3 =
        free_with (is_index ix_request_id.name) grown_1 ix_received_at
          (free_with (is_index ix_request_id.name) indexes ix_idempotency_key (free.2) refl) refl

    free_4 : any (is_index ix_source.name) grown_3 ≡ false
    free_4 =
        free_with (is_index ix_source.name) grown_2 ix_request_id
          (free_with (is_index ix_source.name) grown_1 ix_received_at
            (free_with (is_index ix_source.name) indexes ix_idempotency_key (free.3) refl) refl)
          refl

    free_5 : any (is_index ix_received_at_id.name) grown_4 ≡ false
    free_5 =
        free_with (is_index ix_received_at_id.name) grown_3 ix_source
          (free_with (is_index ix_received_at_id.name) grown_2 ix_request_id
            (free_with (is_index ix_received_at_id.name) grown_1 ix_received_at
              (free_with (is_index ix_received_at_id.name) indexes ix_idempotency_key (free.4) refl)
              refl)
            refl)
          refl

    free_6 : any (is_index ix_source_received_at_id.name) grown_5 ≡ false
    free_6 =
        free_with (is_index ix_source_received_at_id.name) grown_4 ix_received_at_id
          (free_with (is_index ix_source_received_at_id.name) grown_3 ix_source
            (free_with (is_index ix_source_received_at_id.name) grown_2 ix_request_id
              (free_with (is_index ix_source_received_at_id.name) grown_1 ix_received_at
                (free_with (is_index ix_source_received_at_id.name) indexes ix_idempotency_key
                  (free.5) refl)
                refl)
              refl)
            refl)
          refl

    there : any (is_table "events") with_table ≡ true
    there = any_with (is_table "events") tables events_table refl

    pub upgrade-Holds :
        (s : Schema)
        → Holds s tables indexes
        → any (is_table "events") tables ≡ false
        → (s' : Schema) × (upgrade op s ≡ ok s') × Holds s' with_table grown_6
    unfolding upgrade
    upgrade-Holds s h none_yet =
        let (s1, e1, same, more) =
          op.create_table_lem events_table s (ap (any _) h.tables_are ∙ none_yet) in
        let h1 : Holds s1 with_table indexes = record {
          tables_are = same ∙ ap (λ l. l ++ events_table ∷ []) h.tables_are;
          indexes_are = more ∙ h.indexes_are;
        } in
        let (s2, e2, h2) =
          create_index_step ix_idempotency_key with_table indexes h1 there free_1 in
        let (s3, e3, h3) = create_index_step ix_received_at with_table grown_1 h2 there free_2 in
        let (s4, e4, h4) = create_index_step ix_request_id with_table grown_2 h3 there free_3 in
        let (s5, e5, h5) = create_index_step ix_source with_table grown_3 h4 there free_4 in
        let (s6, e6, h6) = create_index_step ix_received_at_id with_table grown_4 h5 there free_5 in
        let (s7, e7, h7) =
          create_index_step ix_source_received_at_id with_table grown_5 h6 there free_6 in
        (s7, rw e1 (rw e2 (rw e3 (rw e4 (rw e5 (rw e6 e7))))), h7)

    downgrade-Holds :
        (s : Schema)
        → Holds s with_table grown_6
        → any (is_table "events") tables ≡ false
        → any (is_index_of "events") indexes ≡ false
        → (s' : Schema) × (downgrade op s ≡ ok s') × Holds s' tables indexes
    unfolding downgrade
    downgrade-Holds s h none_yet no_index =
        let (s1, e1, h1) = drop_index_step ix_source_received_at_id with_table grown_5 h free_6 in
        let (s2, e2, h2) = drop_index_step ix_received_at_id with_table grown_4 h1 free_5 in
        let (s3, e3, h3) = drop_index_step ix_source with_table grown_3 h2 free_4 in
        let (s4, e4, h4) = drop_index_step ix_request_id with_table grown_2 h3 free_3 in
        let (s5, e5, h5) = drop_index_step ix_received_at with_table grown_1 h4 free_2 in
        let (s6, e6, h6) = drop_index_step ix_idempotency_key with_table indexes h5 free_1 in
        let (s7, e7, same, less) =
          op.drop_table_lem "events" s6 (ap (any _) h6.tables_are ∙ there) in
        (
          s7,
          rw e1 (rw e2 (rw e3 (rw e4 (rw e5 (rw e6 e7))))),
          record {
            tables_are =
                same
                ∙ ap (keep _) h6.tables_are
                ∙ keep_init (is_table "events") tables events_table none_yet refl;
            indexes_are =
                less
                ∙ ap (keep _) h6.indexes_are
                ∙ keep_all (is_index_of "events") indexes no_index;
          },
        )

  -- On a schema without the table, its indexes and their names, the upgrade succeeds and makes the
  -- table and the six indexes, and the downgrade after it succeeds and leaves the tables and the
  -- indexes that there were before.
  pub downgrade-upgrade :
      (s : Schema)
      → any (is_table "events") (op.tables s) ≡ false
      → any (is_index_of "events") (op.indexes s) ≡ false
      → IsFree (op.indexes s)
      → (up : Schema) × (down : Schema) × (upgrade op s ≡ ok up)
        × (downgrade op up ≡ ok down)
        × Holds up (op.tables s ++ events_table ∷ []) (made (op.indexes s))
        × Holds down (op.tables s) (op.indexes s)
  downgrade-upgrade s none_yet no_index free =
      let (up, went_up, made_all) =
        upgrade-Holds (op.tables s) (op.indexes s) free s
          (record { tables_are = refl; indexes_are = refl }) none_yet in
      let (down, went_down, left) =
        downgrade-Holds (op.tables s) (op.indexes s) free up made_all none_yet no_index in
      (up, down, went_up, went_down, made_all, left)
