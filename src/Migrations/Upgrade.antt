-- ===== src/Migrations/Upgrade.antt =====
-- What the migrations make of a new database, compared with the models.
use day_trade_intellegence.Core.Action.{Action, ok, ◌>>◌}
use day_trade_intellegence.Core.Action.Triple.{Gives, Triple, Triple-gives}
use day_trade_intellegence.Migrations.{
  Ddl, audit_log_columns, downgrade_base, downgrade_initial, downgrade_reconciliation,
  position_columns, reconciliation_run_columns, strategy_run_columns, trade_order_columns,
  upgrade_head, upgrade_initial, upgrade_reconciliation,
}
use day_trade_intellegence.Migrations.Effects.{
  IsDdl, any_named, change_indexes, index_on, is_named, new_table,
}
use day_trade_intellegence.Migrations.Schema.{
  Column, ColumnType, Table, TableIndex, metadata_tables, user_table,
}
use day_trade_intellegence.Prelude.{
  Bool, List, String, [], ap, false, filter, map, not, refl, str_eq, true, ◌++◌, ◌∙◌, ◌∷◌, ◌≡◌,
}

-- What the models and the migrations are compared by: of a column its name, its type and whether it
-- is the key or may be null; of the indexes those that are not of the key, which the database has
-- anyway. The defaults of a column and the constraint beside a unique index are left out.
pub record Shape : Type 0 where
  pub name : String
  pub columns : List (String × ColumnType × Bool × Bool)
  pub indexes : List TableIndex

abbrev starts_with_id : List String → Bool
starts_with_id [] = false
starts_with_id (c ∷ cs) = str_eq c "id"

abbrev pub shape : Table → Shape
shape t = record {
  name = t.name;
  columns = map (λ c. (c.name, c.kind, c.primary_key, c.nullable)) t.columns;
  indexes = filter (λ i. not (starts_with_id i.columns)) t.indexes;
}

abbrev single : String → String → Bool → TableIndex
single name column unique = record { name = name; columns = column ∷ []; unique = unique }

abbrev initial_tables : List Table
initial_tables =
    record (new_table "trade_audit_logs" audit_log_columns []) {
      indexes =
          single "ix_trade_audit_logs_symbol" "symbol" false
          ∷ single "ix_trade_audit_logs_status" "status" false
          ∷ [];
    }
    ∷ record (new_table "strategy_runs" strategy_run_columns []) {
      indexes = single "ix_strategy_runs_symbol" "symbol" false ∷ [];
    }
    ∷ record (new_table "trade_orders" trade_order_columns []) {
      indexes =
          single "ix_trade_orders_symbol" "symbol" false
          ∷ single "ix_trade_orders_status" "status" false
          ∷ single "ix_trade_orders_broker_order_id" "broker_order_id" false
          ∷ [];
    }
    ∷ record (new_table "positions" position_columns (("symbol" ∷ []) ∷ [])) {
      indexes = single "ix_positions_symbol" "symbol" true ∷ [];
    }
    ∷ []

abbrev migrated_tables : List Table
migrated_tables =
    initial_tables
    ++ record (new_table "reconciliation_runs" reconciliation_run_columns []) {
      indexes = single "ix_reconciliation_runs_status" "status" false ∷ [];
    }
      ∷ []

module _ {W : Type 0} (op : Ddl W) (laws : IsDdl op) where
  abbrev At : List Table → W → Type 0
  At s w = op.schema w ≡ s

  create_table-At :
      (s : List Table) (name : String) (columns : List Column) (unique : List (List String))
      → any_named name s ≡ false
      → Triple
          (At s)
          (op.create_table name columns unique)
          (Gives tt (At (s ++ new_table name columns unique ∷ [])))
  create_table-At s name columns unique absent = record {
    at = λ w h.
        let (done, after) = laws.creates_table name columns unique w (rw h absent) in
        (done, after ∙ ap (λ x. x ++ new_table name columns unique ∷ []) h);
  }

  create_index-At :
      (s : List Table) (name table : String) (columns : List String) (unique : Bool)
      → any_named table s ≡ true
      → Triple (At s) (op.create_index name table columns unique) (
          Gives tt (
            At (
              change_indexes table
                (λ is. is ++ record { name = name; columns = columns; unique = unique } ∷ [])
                s)))
  create_index-At s name table columns unique present = record {
    at = λ w h.
        let (done, after) = laws.creates_index name table columns unique w (rw h present) in
        (
          done,
          after
              ∙ ap
                  (change_indexes table
                    (λ is. is ++ record { name = name; columns = columns; unique = unique } ∷ []))
                  h,
        );
  }

  drop_index-At :
      (s : List Table) (name table : String)
      → index_on name table s ≡ true
      → Triple
          (At s)
          (op.drop_index name table)
          (Gives tt (At (change_indexes table (filter (λ i. not (str_eq i.name name))) s)))
  drop_index-At s name table present = record {
    at = λ w h.
        let (done, after) = laws.drops_index name table w (rw h present) in
        (done, after ∙ ap (change_indexes table (filter (λ i. not (str_eq i.name name)))) h);
  }

  drop_table-At :
      (s : List Table) (name : String)
      → any_named name s ≡ true
      → Triple (At s) (op.drop_table name) (Gives tt (At (filter (λ t. not (is_named name t)) s)))
  drop_table-At s name present = record {
    at = λ w h.
        let (done, after) = laws.drops_table name w (rw h present) in
        (done, after ∙ ap (filter (λ t. not (is_named name t))) h);
  }

  -- One operation before the rest of a block.
  before :
      {s t : List Table} (m : Action W (Unit {0})) (rest : Action W (Unit {0})) (u : List Table)
      → Triple (At s) m (Gives tt (At t))
      → Triple (At t) rest (Gives tt (At u))
      → Triple (At s) (m >> rest) (Gives tt (At u))
  before m rest u first second = Triple-gives (Gives tt (At u)) tt m (λ _. rest) first second

  upgrade_initial-At : Triple (At []) (upgrade_initial op) (Gives tt (At initial_tables))
  unfolding upgrade_initial
  upgrade_initial-At = before _ _ _ (create_table-At _ _ _ _ refl) (
      before _ _ _ (create_index-At _ _ _ _ _ refl) (
        before _ _ _ (create_index-At _ _ _ _ _ refl) (
          before _ _ _ (create_table-At _ _ _ _ refl) (
            before _ _ _ (create_index-At _ _ _ _ _ refl) (
              before _ _ _ (create_table-At _ _ _ _ refl) (
                before _ _ _ (create_index-At _ _ _ _ _ refl) (
                  before _ _ _ (create_index-At _ _ _ _ _ refl) (
                    before _ _ _ (create_index-At _ _ _ _ _ refl) (
                      before _ _ _ (create_table-At _ _ _ _ refl)
                        (create_index-At _ _ _ _ _ refl))))))))))

  upgrade_head-At : Triple (At []) (upgrade_head op) (Gives tt (At migrated_tables))
  unfolding upgrade_head upgrade_reconciliation
  upgrade_head-At =
      before _ _ _ upgrade_initial-At
        (before _ _ _ (create_table-At _ _ _ _ refl) (create_index-At _ _ _ _ _ refl))

  downgrade_base-At : Triple (At migrated_tables) (downgrade_base op) (Gives tt (At []))
  unfolding downgrade_base downgrade_reconciliation downgrade_initial
  downgrade_base-At =
      before _ _ _ (before _ _ _ (drop_index-At _ _ _ refl) (drop_table-At _ _ refl)) (
        before _ _ _ (drop_index-At _ _ _ refl) (
          before _ _ _ (drop_table-At _ _ refl) (
            before _ _ _ (drop_index-At _ _ _ refl) (
              before _ _ _ (drop_index-At _ _ _ refl) (
                before _ _ _ (drop_index-At _ _ _ refl) (
                  before _ _ _ (drop_table-At _ _ refl) (
                    before _ _ _ (drop_index-At _ _ _ refl) (
                      before _ _ _ (drop_table-At _ _ refl) (
                        before _ _ _ (drop_index-At _ _ _ refl) (
                          before _ _ _ (drop_index-At _ _ _ refl) (drop_table-At _ _ refl)))))))))))

  -- On a new database the migrations succeed, and create every table of the models but that of the
  -- users, with its columns and its indexes other than that of the key; the table of the users, which
  -- the models declare too, does not exist then.
  pub upgrade_head_tables :
      (w : W)
      → op.schema w ≡ []
      → ((upgrade_head op w).0 ≡ ok tt)
        × (map shape metadata_tables
            ≡ shape user_table ∷ map shape (op.schema (upgrade_head op w).1))
        × (any_named "users" (op.schema (upgrade_head op w).1) ≡ false)
  unfolding metadata_tables user_table
  upgrade_head_tables w new =
      let (done, after) = upgrade_head-At.at w new in (done, rw after refl, rw after refl)

  -- Undoing all migrations gives the new database back.
  pub downgrade_base-upgrade_head :
      (w : W)
      → op.schema w ≡ []
      → (((upgrade_head op >> downgrade_base op) w).0 ≡ ok tt)
        × (op.schema ((upgrade_head op >> downgrade_base op) w).1 ≡ [])
  downgrade_base-upgrade_head w new = (before _ _ _ upgrade_head-At downgrade_base-At).at w new
