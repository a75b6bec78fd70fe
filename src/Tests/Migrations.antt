-- ===== src/Tests/Migrations.antt =====
-- A database that keeps what it is told, newest first, on which the migration is tried.
use orbi_inference.Base.{
  true, ◌≡◌, refl, String, Bool, false, ◌||◌, if◌then◌else◌, List, [], ◌∷◌, str_eq, Bool-cases, inl,
  inr, eq_iff, arith,
}
use orbi_inference.Errors.{Result, ok, err, integrity_error, ◌>>=◌}
use orbi_inference.Migration.Schema.{Table, Index, Operations}
use orbi_inference.Migration.Accounts.{
  projects_table, api_keys_table, model_aliases_table, workers_table,
  worker_enrollment_tokens_table,
}
use orbi_inference.Migration.Records.{
  orbi_requests_table, usage_records_table, incidents_table, idx_requests_queue, idx_requests_lease,
  idx_usage_project_day,
}
use orbi_inference.Migration.{upgrade, downgrade, run_upgrade, run_downgrade}
use orbi_inference.Migration.Reversal.{are_consistent, upgrade-downgrade}

-- A table with the indexes that it has got.
abbrev Tables : Type 0
Tables = List (Table × List Index)

abbrev has_table : String → Tables → Bool
has_table name [] = false
has_table name ((t, indexes) ∷ s) = str_eq name t.name || has_table name s

abbrev create_table : Table → Tables → Result Tables
create_table t s = if has_table t.name s then err integrity_error else ok ((t, []) ∷ s)

abbrev add_index : Index → Tables → Tables
add_index i [] = []
add_index i ((t, indexes) ∷ s) =
    let rest = add_index i s in
    if str_eq i.table t.name then (t, i ∷ indexes) ∷ s else (t, indexes) ∷ rest

abbrev create_index : Index → Tables → Result Tables
create_index i s = if has_table i.table s then ok (add_index i s) else err integrity_error

abbrev drop_table : String → Tables → Result Tables
drop_table name [] = err integrity_error
drop_table name ((t, indexes) ∷ s) =
    let rest = drop_table name s in
    if str_eq name t.name then ok s else rest >>= λ s'. ok ((t, indexes) ∷ s')

create_table-eq-ok : (t : Table) (s s' : Tables) → create_table t s ≡ ok s' → s' ≡ ((t, []) ∷ s)
create_table-eq-ok t s s' made = ground arith

create_index-eq-ok : (i : Index) (s s' : Tables) → create_index i s ≡ ok s' → s' ≡ add_index i s
create_index-eq-ok i s s' made = ground arith

drop_table-add_index :
    (i : Index) (s : Tables) → drop_table i.table (add_index i s) ≡ drop_table i.table s
drop_table-add_index i [] = refl
drop_table-add_index i ((t, indexes) ∷ s) = elim (Bool-cases (str_eq i.table t.name)) [
  | inl e ↦ rw e (rw e refl)
  | inr e ↦ rw e (rw e (rw (drop_table-add_index i s) refl))
]

drop_table-create_table :
    (t : Table) (s s' : Tables) → create_table t s ≡ ok s' → drop_table t.name s' ≡ ok s
drop_table-create_table t s s' made =
    rw (create_table-eq-ok t s s' made) (rw ((eq_iff t.name t.name).1 refl) refl)

abbrev database : Operations Tables
database = record {
  create_table = create_table;
  create_index = create_index;
  drop_table = drop_table;
  drop_table-create_table = drop_table-create_table;
  drop_table-create_index =
      λ i s s' made. rw (create_index-eq-ok i s s' made) (drop_table-add_index i s);
}

abbrev upgraded : Tables
upgraded =
    (incidents_table, [])
    ∷ (usage_records_table, idx_usage_project_day ∷ [])
    ∷ (orbi_requests_table, idx_requests_lease ∷ idx_requests_queue ∷ [])
    ∷ (worker_enrollment_tokens_table, [])
    ∷ (workers_table, [])
    ∷ (model_aliases_table, [])
    ∷ (api_keys_table, [])
    ∷ (projects_table, [])
    ∷ []

upgrade_runs : run_upgrade database upgrade [] ≡ ok upgraded
unfolding run_upgrade
upgrade_runs = refl

upgrade-downgrade_example :
    (run_downgrade database downgrade upgraded ≡ ok []) × (are_consistent [] [] upgrade ≡ true)
upgrade-downgrade_example = upgrade-downgrade database [] upgraded upgrade_runs
