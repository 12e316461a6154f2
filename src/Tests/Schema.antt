-- ===== src/Tests/Schema.antt =====
-- The migrations on a database in memory.
use day_trade_intellegence.Core.Action.{ok, ◌>>=◌, ◌>>◌}
use day_trade_intellegence.Core.Float.Fixed.{fixed}
use day_trade_intellegence.Migrations.{
  Ddl, downgrade_base, upgrade_head, upgrade_initial, upgrade_reconciliation,
}
use day_trade_intellegence.Migrations.Effects.{
  IsDdl, any_named, change_indexes, is_named, new_table,
}
use day_trade_intellegence.Migrations.Schema.{Table, metadata_tables, user_table}
use day_trade_intellegence.Migrations.Upgrade.{
  downgrade_base-upgrade_head, shape, upgrade_head_tables,
}
use day_trade_intellegence.Prelude.{List, [], false, filter, map, not, refl, str_eq, ◌++◌, ◌∷◌, ◌≡◌}

abbrev sim_ddl : Ddl (List Table)
sim_ddl = record {
  create_table = λ name columns unique s. (ok tt, s ++ new_table name columns unique ∷ []);
  create_index = λ name table columns unique s. (
    ok tt,
    change_indexes table
        (λ is. is ++ record { name = name; columns = columns; unique = unique } ∷ []) s,
  );
  drop_index =
      λ name table s. (ok tt, change_indexes table (filter (λ i. not (str_eq i.name name))) s);
  drop_table = λ name s. (ok tt, filter (λ t. not (is_named name t)) s);
  schema = λ s. s;
}

sim_ddl-IsDdl : IsDdl sim_ddl
sim_ddl-IsDdl = record {
  creates_table = λ name columns unique w absent. (refl, refl);
  creates_index = λ name table columns unique w present. (refl, refl);
  drops_index = λ name table w present. (refl, refl);
  drops_table = λ name w present. (refl, refl);
}

-- what the database has after `alembic upgrade head`, by name
tables_after_upgrade :
    map (λ (t : Table). t.name) (upgrade_head sim_ddl []).1
    ≡ "trade_audit_logs" ∷ "strategy_runs" ∷ "trade_orders" ∷ "positions" ∷ "reconciliation_runs"
      ∷ []
unfolding upgrade_head upgrade_initial upgrade_reconciliation ◌>>=◌
tables_after_upgrade = refl

upgrade_head_tables_example :
    ((upgrade_head sim_ddl []).0 ≡ ok tt)
    × (map shape metadata_tables
        ≡ shape user_table ∷ map shape (sim_ddl.schema (upgrade_head sim_ddl []).1))
    × (any_named "users" (sim_ddl.schema (upgrade_head sim_ddl []).1) ≡ false)
upgrade_head_tables_example = upgrade_head_tables sim_ddl sim_ddl-IsDdl [] refl

downgrade_base-upgrade_head_example :
    (((upgrade_head sim_ddl >> downgrade_base sim_ddl) []).0 ≡ ok tt)
    × (sim_ddl.schema ((upgrade_head sim_ddl >> downgrade_base sim_ddl) []).1 ≡ [])
downgrade_base-upgrade_head_example = downgrade_base-upgrade_head sim_ddl sim_ddl-IsDdl [] refl
