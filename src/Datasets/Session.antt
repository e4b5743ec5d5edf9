-- ===== src/Datasets/Session.antt =====
-- Work in a session: a transaction's steps on the tables, where an exception ends them; and the queries
-- for a dataset and for a transformation.
use data_analytics_platform.Base.{
  ℕ, Bool, ◌&&◌, Option, none, some, ◌==◌, is_none, if◌then◌else◌, count_where, first_where,
  update_where, leb,
}
use data_analytics_platform.Schema.{Database, Result, ok, err, Refusal, refusal}
use data_analytics_platform.Schema.Catalog.{Catalog, Project, Dataset, Transformation}
use data_analytics_platform.Artifacts.Table.{Storage}

abbrev pub Action : Type 0 → Type 0
Action A = Storage → Result A × Storage

module _ {A : Type 0} where
  abbrev pub pure : A → Action A
  pure a st = (ok a, st)

  abbrev pub lift : Result A → Action A
  lift r st = (r, st)

  abbrev pub or_raise : Option A → Refusal → Action A
  or_raise none e st = (err (refusal e), st)
  or_raise (some a) e st = (ok a, st)

  abbrev pub within : Storage → Result A × Database → Result A × Storage
  within st (r, db) = (r, record st { database = db })

  -- A call of a service that works on the jobs and the outbox.
  abbrev pub on_database : (Database → Result A × Database) → Action A
  on_database f st = within st (f st.database)

  -- `commit`, or `rollback` where the steps raise.
  abbrev pub settle : Storage → Result A × Storage → Result A × Storage
  settle st (ok a, st') = (ok a, st')
  settle st (err e, st') = (err e, st)

  abbrev pub transaction : Action A → Action A
  transaction m st = settle st (m st)

infixl 5 ◌>>=◌ ◌>>◌
abbrev pub and_then : {A B : Type 0} → Result A × Storage → (A → Action B) → Result B × Storage
and_then (ok a, st) f = f a st
and_then (err e, st) f = (err e, st)

abbrev pub ◌>>=◌ : {A B : Type 0} → Action A → (A → Action B) → Action B
◌>>=◌ m f st = and_then (m st) f

abbrev pub ◌>>◌ : {A B : Type 0} → Action A → Action B → Action B
m >> k = m >>= λ _. k

abbrev pub require : Bool → Refusal → Action (Unit {0})
require c e st = (if c then ok tt else err (refusal e), st)

abbrev pub get_storage : Action Storage
get_storage st = (ok st, st)

abbrev pub modify : (Catalog → Catalog) → Action (Unit {0})
modify f st = (ok tt, record st { catalog = f st.catalog })

abbrev pub is_dataset : ℕ → Dataset → Bool
is_dataset id d = d.id == id

abbrev pub is_transformation : ℕ → Transformation → Bool
is_transformation id t = t.id == id

abbrev pub owns_project : Catalog → ℕ → ℕ → Bool
owns_project c owner project =
    leb 1 (count_where (λ (p : Project). (p.id == project) && (p.owner_id == owner)) c.projects)

abbrev pub find_dataset : ℕ → Catalog → Option Dataset
find_dataset id c = first_where (is_dataset id) c.datasets

-- `Dataset.id == id, Dataset.deleted_at.is_(None), Project.owner_id == owner`; the id is the primary
-- key, so at most one row is looked at.
abbrev pub owned_row : Catalog → ℕ → Option Dataset → Option Dataset
owned_row c owner none = none
owned_row c owner (some d) =
    if is_none d.deleted_at && owns_project c owner d.project_id then some d else none

unfoldable pub owned_dataset : ℕ → ℕ → Catalog → Option Dataset
owned_dataset id owner c = owned_row c owner (find_dataset id c)

abbrev pub find_transformation : ℕ → Catalog → Option Transformation
find_transformation id c = first_where (is_transformation id) c.transformations

abbrev pub set_datasets : (Dataset → Bool) → (Dataset → Dataset) → Catalog → Catalog
set_datasets p f c = record c { datasets = update_where p f c.datasets }

abbrev pub set_transformations :
    (Transformation → Bool) → (Transformation → Transformation) → Catalog → Catalog
set_transformations p f c = record c { transformations = update_where p f c.transformations }
