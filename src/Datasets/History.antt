-- ===== src/Datasets/History.antt =====
-- Histories: transactions on datasets in any order, by any number of sessions and workers, of which
-- each worker may stop for good between any two.
use data_analytics_platform.Base.{ℕ, zero, suc, ◌++◌, List, [], ◌∷◌, String, Option, none, some}
use data_analytics_platform.Schema.{Database, Result, ok, err, Settings}
use data_analytics_platform.Artifacts.Table.{Storage, StorageArtifact}
use data_analytics_platform.Snapshots.Manifests.{FileStat}
use data_analytics_platform.Jobs.Clock.{Clock}
use data_analytics_platform.Datasets.Prepare.{
  Preparing, TransformationRequest, Admission, transform_dataset,
}
use data_analytics_platform.Datasets.Audit.{MaterializedArtifact}
use data_analytics_platform.Datasets.Execute.{
  Attempt, Begun, already, running, Beginning, begin_execution, Finishing, complete_transformation,
}
use data_analytics_platform.Datasets.Undo.{UndoRequest, Observation, Undoing, undo_observed}
use data_analytics_platform.Datasets.Recovery.{
  Deleting, start_transformation, cancel_run, fail_run, retry_run, recover_finalization,
}

-- The tables and the runs that an engine has worked for, the oldest first.
pub record Platform : Type 0 where
  pub storage : Storage
  pub runs : List Attempt

-- Any worker may complete any run, also one that was completed or given up before; `elsewhere` is what
-- other sessions do to jobs, publications and artifacts.
pub data Call (F : Type 0) : Type 0 where
  admitting : Settings → Preparing F → Admission → TransformationRequest → Call F
  starting : String → String → ℕ → Clock → ℕ → Call F
  beginning : Beginning → ℕ → Call F
  completing : ℕ → Finishing → MaterializedArtifact → Call F
  undoing : Undoing → UndoRequest → Observation → Option FileStat → Call F
  cancelling : Deleting → String → String → Clock → ℕ → Call F
  failing : String → String → String → Clock → ℕ → ℕ → Call F
  retrying : String → String → String → Clock → ℕ → Call F
  recovering : Deleting → String → String → String → Clock → ℕ → Call F
  elsewhere : Database → List StorageArtifact → Call F

abbrev pub begun : List Attempt → Result Begun × Storage → Platform
begun rs (ok (running a), st) = record { storage = st; runs = rs ++ a ∷ [] }
begun rs (ok (already t), st) = record { storage = st; runs = rs }
begun rs (err e, st) = record { storage = st; runs = rs }

abbrev pub on_tables : Platform → Storage → Platform
on_tables p st = record p { storage = st }

abbrev pub run_at : ℕ → List Attempt → Option Attempt
run_at n [] = none
run_at zero (a ∷ rest) = some a
run_at (suc n) (a ∷ rest) = run_at n rest

abbrev pub complete_run : Finishing → MaterializedArtifact → Option Attempt → Storage → Storage
complete_run w x none st = st
complete_run w x (some a) st = (complete_transformation w a x st).1

module _ {F : Type 0} where
  unfoldable pub step : Platform → Call F → Platform
  unfolding transform_dataset complete_transformation undo_observed start_transformation cancel_run
      fail_run retry_run recover_finalization begin_execution
  step p (admitting s w a q) = on_tables p (transform_dataset s w a q p.storage).1
  step p (starting task token seconds c id) =
      on_tables p (start_transformation task token seconds c id p.storage).1
  step p (beginning w id) = begun p.runs (begin_execution w id p.storage)
  step p (completing n w x) = on_tables p (complete_run w x (run_at n p.runs) p.storage)
  step p (undoing w q o stat) = on_tables p (undo_observed w q o stat p.storage).1
  step p (cancelling w task token c id) = on_tables p (cancel_run w task token c id p.storage).1
  step p (failing task token message c now id) =
      on_tables p (fail_run task token message c now id p.storage).1
  step p (retrying task token message c id) =
      on_tables p (retry_run task token message c id p.storage).1
  step p (recovering w task token message c id) =
      on_tables p (recover_finalization w task token message c id p.storage).1
  step p (elsewhere db rows) = on_tables p (record p.storage { database = db; artifacts = rows })

  unfoldable pub run : List (Call F) → Platform → Platform
  unfolding step
  run [] p = p
  run (c ∷ cs) p = run cs (step p c)

-- No run has begun.
abbrev pub idle : Storage → Platform
idle st = record { storage = st; runs = [] }
