-- ===== src/Migration/Schema.antt =====
-- What a migration says of tables, columns and indexes (sqlalchemy's schema items, as
-- apps/gateway/alembic/versions/0001_phase1_foundation.py uses them), and the database that carries
-- it out, which is not of this repository.
use orbi_inference.Base.{ℕ, ◌≡◌, String, Bool, true, false, Option, none, some, List}
use orbi_inference.Errors.{Result, ok}

pub data ColumnType : Type 0 where
  uuid text_type big_integer integer small_integer boolean date timestamp float jsonb text_array :
      ColumnType
  string : ℕ → ColumnType
  numeric : ℕ → ℕ → ColumnType

pub data OnDelete : Type 0 where
  cascade restrict set_null no_action : OnDelete

-- A literal, or an SQL expression (`sa.text`, `sa.func.now`, `sa.true`).
pub data ServerDefault : Type 0 where
  value expression : String → ServerDefault

pub record Column : Type 0 where
  pub name : String
  pub kind : ColumnType
  pub is_nullable : Bool
  pub is_primary_key : Bool
  pub is_unique : Bool
  pub server_default : Option ServerDefault
  pub foreign_key : Option (String × String × OnDelete)

abbrev pub column : String → ColumnType → Column
column name kind = record {
  name = name;
  kind = kind;
  is_nullable = true;
  is_primary_key = false;
  is_unique = false;
  server_default = none;
  foreign_key = none;
}

abbrev pub not_null : Column → Column
not_null c = record c { is_nullable = false }

abbrev pub unique : Column → Column
unique c = record c { is_unique = true }

abbrev pub primary_key : Column → Column
primary_key c = record c { is_primary_key = true; is_nullable = false }

abbrev pub with_default : String → Column → Column
with_default text c = record c { server_default = some (value text) }

abbrev pub with_expression : String → Column → Column
with_expression text c = record c { server_default = some (expression text) }

-- `sa.ForeignKey("table.column", ondelete=...)`
abbrev pub references : String → String → OnDelete → Column → Column
references table key on_delete c = record c { foreign_key = some (table, key, on_delete) }

-- Constraints have a name and a condition, or the names of their columns.
pub record Table : Type 0 where
  pub name : String
  pub columns : List Column
  pub checks : List (String × String)
  pub uniques : List (String × List String)

pub record Index : Type 0 where
  pub name : String
  pub table : String
  pub columns : List String
  pub where_clause : Option String

-- `alembic.op` on a database, which answers or raises. A table that has just been created, and that
-- nothing refers to, can be dropped, and so can one with an index that has just been created, which
-- goes with it.
pub record Operations (S : Type 0) : Type 0 where
  pub create_table : Table → S → Result S
  pub create_index : Index → S → Result S
  pub drop_table : String → S → Result S
  pub drop_table-create_table :
      (t : Table) (s s' : S) → create_table t s ≡ ok s' → drop_table t.name s' ≡ ok s
  pub drop_table-create_index :
      (i : Index) (s s' : S)
      → create_index i s ≡ ok s'
      → drop_table i.table s' ≡ drop_table i.table s
