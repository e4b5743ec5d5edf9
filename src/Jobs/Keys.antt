-- ===== src/Jobs/Keys.antt =====
-- `task_id` is the primary key of the job table.
use data_analytics_platform.Base.{
  ◌≡◌, String, Bool, true, false, ◌&&◌, some, none, arith, ◌==◌, ap, count_where-and-le,
  update_where_zero, IsSingle, first_where-update, count_where_keyed, count_where_absent,
  if◌then◌else◌,
}
use data_analytics_platform.Schema.{Database}
use data_analytics_platform.Schema.Jobs.{JobRecord}
use data_analytics_platform.Jobs.Admission.{is_task}
use data_analytics_platform.Jobs.Worker.{update_task, matched, get}

abbrev pub IsKeyed : Database → Type 0
IsKeyed db = (task : String) → IsSingle (is_task task) db.jobs

module _ (task : String) (guard : JobRecord → Bool) where
  -- An update that does not report one row has changed none.
  pub unmatched :
      (change : JobRecord → JobRecord) (db : Database)
      → IsKeyed db
      → (matched task guard db == 1) ≡ false
      → update_task task guard change db ≡ db
  unmatched change db k h =
      ap (λ (rs : _). record db { jobs = rs })
        (update_where_zero (λ r. is_task task r && guard r) change db.jobs
          (ground (arith, k task, count_where-and-le (is_task task) guard db.jobs)))

  -- The update reports a row exactly when the task's row passes the guard.
  pub matched_found :
      (db : Database) (r : JobRecord)
      → IsKeyed db
      → get db task ≡ some r
      → matched task guard db ≡ (if guard r then 1 else 0)
  unfolding get
  matched_found db r k h = count_where_keyed (is_task task) guard db.jobs r (k task) h

  pub matched_absent : (db : Database) → get db task ≡ none → matched task guard db ≡ 0
  unfolding get
  matched_absent db h = count_where_absent (is_task task) guard db.jobs h

  pub get-update_task :
      (change : JobRecord → JobRecord) (db : Database) (r : JobRecord)
      → ((s : JobRecord) → (change s).task_id ≡ s.task_id)
      → get db task ≡ some r
      → get (update_task task guard change db) task ≡ some (if guard r then change r else r)
  unfolding get
  get-update_task change db r same h =
      first_where-update (is_task task) guard change db.jobs (λ s e. ground (arith, same s)) r h

  -- A guard that the task's row does not pass selects nothing.
  pub unselected :
      (change : JobRecord → JobRecord) (db : Database) (r : JobRecord)
      → IsKeyed db
      → get db task ≡ some r
      → guard r ≡ false
      → ((matched task guard db == 1) ≡ false) × (update_task task guard change db ≡ db)
  unselected change db r k h g =
      let miss : (matched task guard db == 1) ≡ false = ground (arith, matched_found db r k h) in
      (miss, unmatched change db k miss)

  -- So the update reports a row that passes it.
  pub selected :
      (db : Database) (r : JobRecord)
      → IsKeyed db
      → get db task ≡ some r
      → guard r ≡ true
      → (matched task guard db == 1) ≡ true
  selected db r k h g = ground (arith, matched_found db r k h)
