-- ===== src/Migration/Reversal.antt =====
-- That `downgrade` undoes `upgrade`, and that what `upgrade` creates fits together
-- (apps/gateway/alembic/versions/0001_phase1_foundation.py).
use orbi_inference.Base.{
  ◌≡◌, refl, sym, ◌∙◌, arith, eq_iff, both, Option, String, Bool, true, false, not, ◌&&◌, ◌||◌,
  List, [], ◌∷◌, none, some, str_eq,
}
use orbi_inference.Errors.{ok, >>=-eq-ok, ok-eq}
use orbi_inference.Migration.Schema.{Table, Index, Column, OnDelete, Operations}
use orbi_inference.Migration.{
  Statement, table, index, upgrade, downgrade, run_upgrade, run_downgrade,
}

abbrev has_key : String → List Column → Bool
has_key name [] = false
has_key name (c ∷ cs) = (str_eq name c.name && (c.is_primary_key || c.is_unique)) || has_key name cs

abbrev has_column : String → List Column → Bool
has_column name [] = false
has_column name (c ∷ cs) = str_eq name c.name || has_column name cs

-- One of the tables has the name and a property.
abbrev any_table : String → (Table → Bool) → List Table → Bool
any_table name p [] = false
any_table name p (t ∷ ts) = (str_eq name t.name && p t) || any_table name p ts

abbrev refers : List Table → Option (String × String × OnDelete) → Bool
refers tables none = true
refers tables (some (name, key, on_delete)) = any_table name (λ t. has_key key t.columns) tables

-- No column is named twice, and each foreign key is on a key of one of the tables.
abbrev are_columns_consistent : List Table → List Column → Bool
are_columns_consistent tables [] = true
are_columns_consistent tables (c ∷ cs) =
    not (has_column c.name cs) && (refers tables c.foreign_key && are_columns_consistent tables cs)

abbrev all_columns : List String → List Column → Bool
all_columns [] columns = true
all_columns (name ∷ names) columns = has_column name columns && all_columns names columns

abbrev is_fresh : String → List Table → List Index → Bool
is_fresh name tables [] = not (any_table name (λ t. true) tables)
is_fresh name tables (i ∷ indexes) = not (str_eq name i.name) && is_fresh name tables indexes

-- The statements fit the tables and indexes before them: names are new, foreign keys lead to keys of
-- a table before or of the same table, and indexes are on columns of a table before.
abbrev pub are_consistent : List Table → List Index → List Statement → Bool
are_consistent tables indexes [] = true
are_consistent tables indexes (table t ∷ rest) =
    is_fresh t.name tables indexes
    && (are_columns_consistent (t ∷ tables) t.columns && are_consistent (t ∷ tables) indexes rest)
are_consistent tables indexes (index i ∷ rest) =
    is_fresh i.name tables indexes
    && (any_table i.table (λ t. all_columns i.columns t.columns) tables
        && are_consistent tables (i ∷ indexes) rest)

-- The last table created comes first.
abbrev created_after : List Statement → List String → List String
created_after [] created = created
created_after (table t ∷ rest) created = created_after rest (t.name ∷ created)
created_after (index i ∷ rest) created = created_after rest created

abbrev is_last : String → List String → Bool
is_last name [] = false
is_last name (last ∷ names) = str_eq name last

-- Each index is on the last table before it.
abbrev are_adjacent : List String → List Statement → Bool
are_adjacent created [] = true
are_adjacent created (table t ∷ rest) = are_adjacent (t.name ∷ created) rest
are_adjacent created (index i ∷ rest) = is_last i.table created && are_adjacent created rest

module _ {S : Type 0} (op : Operations S) where
  run_downgrade-table :
      (t : Table) (names : List String) (s s' : S)
      → op.create_table t s ≡ ok s'
      → run_downgrade op (t.name ∷ names) s' ≡ run_downgrade op names s
  unfolding run_downgrade
  run_downgrade-table t names s s' made = rw (op.drop_table-create_table t s s' made) refl

  run_downgrade-index :
      (i : Index) (created : List String) (s s' : S)
      → is_last i.table created ≡ true
      → op.create_index i s ≡ ok s'
      → run_downgrade op created s' ≡ run_downgrade op created s
  unfolding run_downgrade
  run_downgrade-index i [] s s' last made = ground arith
  run_downgrade-index i (name ∷ names) s s' last made =
      rw (sym ((eq_iff _ _).0 last)) (rw (op.drop_table-create_index i s s' made) refl)

  -- To drop the tables created, the last first, undoes the statements, and what was before them.
  undone :
      (s s' : S) (created : List String) (statements : List Statement)
      → are_adjacent created statements ≡ true
      → run_upgrade op statements s ≡ ok s'
      → run_downgrade op (created_after statements created) s' ≡ run_downgrade op created s
  unfolding run_upgrade
  undone s s' created [] adjacent ran = rw (ok-eq ran) refl
  undone s s' created (table t ∷ rest) adjacent ran =
      let (next, made, ran') = >>=-eq-ok (op.create_table t s) (run_upgrade op rest) ran in
      undone next s' (t.name ∷ created) rest adjacent ran'
      ∙ run_downgrade-table t created s next made
  undone s s' created (index i ∷ rest) adjacent ran =
      let (last, later) = both (is_last i.table created) _ adjacent in
      let (next, made, ran') = >>=-eq-ok (op.create_index i s) (run_upgrade op rest) ran in
      undone next s' created rest later ran' ∙ run_downgrade-index i created s next last made

  -- If the database carries out the upgrade, it carries out the downgrade after it, which gives the
  -- database back as it was. In the upgrade no table, index or column of a table is named twice, each
  -- foreign key leads to a key of a table created before or of its own, and each index is on columns
  -- of a table created before.
  pub upgrade-downgrade :
      (s s' : S)
      → run_upgrade op upgrade s ≡ ok s'
      → (run_downgrade op downgrade s' ≡ ok s) × (are_consistent [] [] upgrade ≡ true)
  unfolding run_downgrade
  upgrade-downgrade s s' ran = (undone s s' [] upgrade refl ran, refl)
