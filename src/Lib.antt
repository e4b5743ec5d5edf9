-- ===== src/Lib.antt =====
-- Data Analytics Platform: the durable background jobs of the backend, and the files that they write.
--
-- The backend keeps its background work in the database. A request creates a job row and, in the same
-- transaction, an outbox row that says what to publish. A dispatcher claims outbox rows and hands them
-- to the message broker; a worker that receives the message starts the job under an attempt token and
-- a lease, reports progress, and ends it. A reconciler recovers attempts whose lease has run out and
-- deliveries that no worker took up. The code does not trust the broker: deliveries may be lost or
-- doubled, workers may be late, and what keeps the state right is the guard in each UPDATE. A job
-- writes its files under a reservation that it commits first and publishes with its result; a collector
-- removes what failed attempts and deleted data leave behind. Each version of a dataset is an immutable
-- snapshot with a manifest; an opt-in retention expires old ones and asks the collector for their files.
-- A transformation of a dataset runs in a child process under a policy of resources; the transaction
-- that completes its job moves the dataset to a new version and adds a receipt, and an undo moves it on
-- to a version with the former content. In front of the service two
-- middlewares bound the bodies of requests and admit uploads.
--
-- Which file models what:
-- - Schema and its children: the tables of backend/app/models/job.py, task_outbox.py and
--   quality_evaluation.py, in Catalog those of project.py, dataset.py, transformation.py, report.py,
--   dataset_snapshot.py, dataset_event.py and quality_contract.py, the settings of backend/app/core/config.py that are read, and the exceptions
--   of backend/app/services/job_service.py as values. A table is the list of its rows.
-- - Base and its children: lists, texts, and the queries `filter(...).update(...)`, `.count()` and
--   `.first()` over such lists, with their laws.
-- - Jobs and its children: `JobService` of backend/app/services/job_service.py. Clock has
--   `database_now`, `_lease_clock` and `_lease_deadline`; Admission `active_count`, `ensure_capacity`,
--   `create` and `ensure_result_size`; Worker `get`, `owned`, `ensure_active`, `start`, `progress` and
--   `succeed`; Ending `retry`, `fail`, `request_cancellation`, `cancel_pending`, `cancel` and
--   `_complete_quality_evaluation`. Keys, Lifecycle, Acquisition, Fencing, Cancellation and Outcomes
--   prove what these do.
-- - Outbox and its children: `OutboxService` of backend/app/services/outbox_service.py. Intent has
--   `enqueue`, `rearm` and `cancel`; Dispatch `_due`, `candidate_ids`, `dispatch`, `dispatch_pending`
--   and `dispatch_task`; Reconcile `reconcile`. Lifecycle, Fencing, Pacing and Recovery prove what
--   these do.
-- - System and its children: all these operations as calls on one database, and what holds after any
--   history of them. Maintenance adds what other code does to the job table: `remove_expired_job_history` of
--   backend/app/tasks/retention_tasks.py, and the deletion of a report in
--   backend/app/api/v1/routes/reports.py, of which only the update of the jobs is modelled. Expired and
--   Progress prove what becomes of a job among all of these; History and Budget are about the calls of
--   the services alone.
-- - Artifacts and its children: `ArtifactService` of backend/app/services/artifact_service.py. Writer
--   has `reserve`, `publish`, `schedule_delete`, `abandon_attempt` and `managed_paths`; References has
--   `_referenced`; Cleanup has the two transactions of `cleanup` on one candidate, and Files the removal
--   of its files, with `delete` of storage_service.py, and the loop. History, Publication, Safety and
--   Collection prove what these do. `os.path` and `pathlib` are the record Paths, and the calls that
--   touch the disk the record FileSystem.
-- - Snapshots and its children: `SnapshotService` of backend/app/services/snapshot_service.py. Manifests
--   has `digest`, `record`, `manifest` and `verify`, where a Reading says what the file system answers;
--   Expiry has `expire_history`. Rows, Recent, Retention, History and Integrity prove what these do.
-- - Datasets and its children: transformations of datasets. Session has transactions whose steps may
--   raise, and `owned_dataset` of backend/app/api/v1/routes/datasets.py; Audit `replay`,
--   `record_transformation` and `record_undo` of backend/app/services/dataset_audit_service.py; Quota,
--   Prepare, Execute and Undo the storage quota, `prepare_transformation` with the route
--   `transform_dataset`, `execute_prepared_transformation` and `undo_last` of
--   backend/app/services/dataset_service.py; Recovery `_validate_job_target`, `_fail_transformation`,
--   `_recover_transformation_finalization` and the handlers of `transform_dataset_task` of
--   backend/app/tasks/dataset_tasks.py. Ledger says what receipts tell of heads; Steps, Admitted, Heads,
--   Completion, Closed, Traced, Replayed and Stale prove what these do, and History has the histories.
-- - Quality and its child: `create_contract` and `admit_evaluation` of
--   backend/app/services/quality_service.py; Replay proves what a repeated admission does.
-- - Engines and its children: `_run_job` of backend/app/services/engines/runner.py, with ResourcePolicy
--   of contracts.py. Runner has the loop of the parent, the thread that drains the child's output and
--   the response, where a Child is what the parent meets, a write of the request that blocks and an
--   output that stays open included, both of which the deadline does not bound; Supervision proves what these do.
-- - Operations and its children: backend/app/services/operations.py and operation_handlers.py, with
--   TransformationPlan of engines/contracts.py. Parameters has the parameter schemas and their checks,
--   Handlers the handlers over the record Frames of what pandas does, Registry the versioned registry,
--   Plan the projections that the native engines run. Agreement and Releases prove what these do.
-- - Uploads and its children: backend/app/core/upload_guard.py. Headers reads the headers; Stream has
--   the bounded stream of a body and Admission the two middlewares, over an application that ends.
--   Limit and Slots prove what these do.
-- - Charts and its children: `ChartCache` of backend/app/services/chart_cache.py. Books and Accounting
--   prove what it keeps.
-- - Cache and its child: `CacheService` of backend/app/core/cache.py, where what Redis answers is an
--   argument. Limits proves what the store of the process does when Redis fails.
-- - Tests and its children: the theorems at concrete databases and stores.
--
-- How the code corresponds. An operation is a function from its arguments and the database to its
-- result and the database it leaves; an exception is the result `err`. Each operation locks the job's
-- row before it reads the clock, so it is one step; `dispatch` commits between its parts, so it is a
-- claim and a finish with any steps of other sessions between. Times are microseconds of UTC. A `Clock`
-- says what the database's clock gives to the SELECT and to the UPDATE of a call, and to those of the
-- call that it may end with; within one UPDATE the clock is read once. JSON results, the size of their
-- text, the broker, `uuid4` and `random.uniform` are arguments. SQL comparisons with NULL are written
-- out as false. The transactions of the collector are separate calls in Artifacts/History, so any calls
-- of other sessions may come between them; in Artifacts/Files one candidate is collected undisturbed.
--
-- The loops run over lists of rows, of messages or of candidates, and take no fuel, but for the loop of
-- the parent in Engines/Runner, which has no bound of its own. One unit of fuel is one round; a round
-- lasts at least one unit of the policy's time, so one more than the policy's timeout is enough for the
-- loop.
--
-- Not modelled: the CHECK constraints (a progress of more than 100 is refused by the database) except
-- those of a new manifest, foreign keys, the messages of exceptions, logging, and SQLite, where row locks
-- do nothing. Of the snapshots `describe`, which only reads; of the engines what runs in the child, which
-- calls dataframe libraries; of the operations the catalog of JSON schemas. Of
-- `execute_prepared_transformation` the engine's run between the transactions (its outcome is the record
-- MaterializedArtifact, and the disk the record Disk) and the removal of the temporary file; of
-- `undo_last` the hashing (an Observation says what it found); of the tasks the retry that Celery is
-- asked for. Reading and writing datasets, previews and profiles, the query and report services, the
-- evaluation of quality rules, the tasks on imports and the other tasks of maintenance, the scheduler's threads,
-- authentication, backup, the migrations and the frontend stand outside this development.
pub mod Base
pub mod Schema
pub mod Jobs
pub mod Outbox
pub mod System
pub mod Artifacts
pub mod Cache
pub mod Charts
pub mod Uploads
pub mod Operations
pub mod Quality
pub mod Datasets
pub mod Engines
pub mod Snapshots
pub mod Tests
