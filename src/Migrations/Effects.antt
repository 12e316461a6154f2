-- ===== src/Migrations/Effects.antt =====
-- What the operations of Alembic do to the tables of a database.
use day_trade_intellegence.Core.Action.{ok}
use day_trade_intellegence.Migrations.{Ddl}
use day_trade_intellegence.Migrations.Schema.{Column, Table, TableIndex}
use day_trade_intellegence.Prelude.{
  Bool, List, String, [], false, filter, if◌then◌else◌, not, str_eq, true, ◌&&◌, ◌++◌, ◌||◌, ◌∷◌,
  ◌≡◌,
}

abbrev pub is_named : String → Table → Bool
is_named name table = str_eq table.name name

abbrev pub any_named : String → List Table → Bool
any_named name [] = false
any_named name (t ∷ ts) = str_eq t.name name || any_named name ts

abbrev pub has_index : String → List TableIndex → Bool
has_index name [] = false
has_index name (i ∷ is) = str_eq i.name name || has_index name is

-- The table `name` with its indexes changed.
abbrev pub change_indexes : String → (List TableIndex → List TableIndex) → List Table → List Table
change_indexes name f [] = []
change_indexes name f (t ∷ ts) =
    (if str_eq t.name name then record t { indexes = f t.indexes } else t)
    ∷ change_indexes name f ts

abbrev pub index_on : String → String → List Table → Bool
index_on name table [] = false
index_on name table (t ∷ ts) =
    (str_eq t.name table && has_index name t.indexes) || index_on name table ts

abbrev pub new_table : String → List Column → List (List String) → Table
new_table name columns unique = record {
  name = name;
  columns = columns;
  unique_constraints = unique;
  indexes = [];
}

-- The documented effect of the operations, each where it applies.
pub record IsDdl {W : Type 0} (op : Ddl W) : Type 0 where
  pub creates_table :
      (name : String) (columns : List Column) (unique : List (List String)) (w : W)
      → any_named name (op.schema w) ≡ false
      → ((op.create_table name columns unique w).0 ≡ ok tt)
        × (op.schema (op.create_table name columns unique w).1
            ≡ op.schema w ++ new_table name columns unique ∷ [])
  pub creates_index :
      (name table : String) (columns : List String) (unique : Bool) (w : W)
      → any_named table (op.schema w) ≡ true
      → ((op.create_index name table columns unique w).0 ≡ ok tt)
        × (op.schema (op.create_index name table columns unique w).1
            ≡ change_indexes table
                (λ is. is ++ record { name = name; columns = columns; unique = unique } ∷ [])
                (op.schema w))
  pub drops_index :
      (name table : String) (w : W)
      → index_on name table (op.schema w) ≡ true
      → ((op.drop_index name table w).0 ≡ ok tt)
        × (op.schema (op.drop_index name table w).1
            ≡ change_indexes table (filter (λ i. not (str_eq i.name name))) (op.schema w))
  pub drops_table :
      (name : String) (w : W)
      → any_named name (op.schema w) ≡ true
      → ((op.drop_table name w).0 ≡ ok tt)
        × (op.schema (op.drop_table name w).1 ≡ filter (λ t. not (is_named name t)) (op.schema w))
