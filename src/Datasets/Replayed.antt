-- ===== src/Datasets/Replayed.antt =====
-- A request that is sent again: `undo_last` under a key that an undo was recorded for.
use data_analytics_platform.Base.{
  ℕ, ◌≡◌, refl, sym, ap, ◌∙◌, subst, List, String, true, ◌&&◌, Option, none, some, ◌==◌, str_eq,
  arith, inl, inr, Bool-cases, Option-cases, first_where, first_where-sat, first_where-append,
  first_where_last, count_where, eq_iff, &&-eq-true,
}
use data_analytics_platform.Schema.{
  Result, ok, err, dataset_not_found, version_changed, not_ready, nothing_to_undo, dataset_changed,
  snapshot_fault,
}
use data_analytics_platform.Schema.Catalog.{Catalog, Dataset, Transformation, DatasetEvent, Receipt}
use data_analytics_platform.Artifacts.Table.{Storage}
use data_analytics_platform.Jobs.Admission.{lock_owner}
use data_analytics_platform.Snapshots.Manifests.{FileStat, Reading, manifest, unchanged}
use data_analytics_platform.Datasets.Session.{
  lift, or_raise, on_database, require, owned_dataset, is_dataset, settle,
}
use data_analytics_platform.Datasets.Audit.{
  is_request, replay, collides, insert_event, undo_event, record_undo,
}
use data_analytics_platform.Datasets.Undo.{
  UndoRequest, Observation, Undoing, valid_key, newest, is_undoable, same_manifest,
  verified_or_raise, undone, restore, undo_locked, undo_observed, observe, undo_last,
}
use data_analytics_platform.Datasets.Prepare.{ensure_ready, is_ready}
use data_analytics_platform.Datasets.Ledger.{Extends}
use data_analytics_platform.Datasets.Steps.{
  Ensures, and_then-Ensures, require-Ensures, or_raise-Ensures, same-Ensures, lift-Ensures,
}
use data_analytics_platform.Datasets.Completion.{owned_dataset-find, newest-sat, verified-catalog}
use data_analytics_platform.Datasets.History.{Call, run, idle}
use data_analytics_platform.Datasets.Traced.{run-Extends}

-- The receipt that a later request under the key finds.
abbrev Answers : Undoing → UndoRequest → String → ℕ → Catalog → Receipt → Type 0
Answers w q key dataset c r =
    (e : DatasetEvent) × (first_where (is_request dataset q.user_id "undo" key) c.events ≡ some e)
    × (str_eq e.request_fingerprint (w.fingerprint dataset q.expected_version) ≡ true)
    × (e.result_json ≡ r)

Answers-Extends :
    (w : Undoing) (q : UndoRequest) (key : String) (dataset : ℕ) (c c' : Catalog) (r : Receipt)
    → Extends c c'
    → Answers w q key dataset c r
    → Answers w q key dataset c' r
Answers-Extends w q key dataset c c' r x (e, found, same, result) = (
  e,
  ap (first_where (is_request dataset q.user_id "undo" key)) x.appended
      ∙ first_where-append (is_request dataset q.user_id "undo" key) c.events x.receipts e found,
  same,
  result,
)

replay-Answers :
    (w : Undoing) (q : UndoRequest) (key : String) (dataset : ℕ) (c : Catalog) (r : Receipt)
    → Answers w q key dataset c r
    → replay dataset q.user_id "undo" (some key) (w.fingerprint dataset q.expected_version) c
      ≡ ok (some r)
unfolding replay
replay-Answers w q key dataset c r (e, found, same, result) = rw found (rw same (rw result refl))

replay-some :
    (w : Undoing) (q : UndoRequest) (key : String) (dataset : ℕ) (c : Catalog) (r : Receipt)
    → replay dataset q.user_id "undo" (some key) (w.fingerprint dataset q.expected_version) c
      ≡ ok (some r)
    → Answers w q key dataset c r
unfolding replay
replay-some w q key dataset c r h =
    elim (Option-cases (first_where (is_request dataset q.user_id "undo" key) c.events)) [
      | inl e ↦ absurd (cc (rw e at h))
      | inr (x, e) ↦
          elim (Bool-cases
            (str_eq x.request_fingerprint (w.fingerprint dataset q.expected_version))) [
              | inl f ↦ (x, e, f, result (rw f at (rw e at h)))
              | inr f ↦ absurd (cc (rw f at (rw e at h)))
            ]
    ]
  where
    result : {x r : Receipt} → ok (some x) ≡ ok (some r) → x ≡ r
    result h = cc

replay-none :
    (w : Undoing) (q : UndoRequest) (key : String) (dataset : ℕ) (c : Catalog)
    → replay dataset q.user_id "undo" (some key) (w.fingerprint dataset q.expected_version) c
      ≡ ok none
    → first_where (is_request dataset q.user_id "undo" key) c.events ≡ none
unfolding replay
replay-none w q key dataset c h =
    elim (Option-cases (first_where (is_request dataset q.user_id "undo" key) c.events)) [
      | inl e ↦ e
      | inr (x, e) ↦
          elim (Bool-cases
            (str_eq x.request_fingerprint (w.fingerprint dataset q.expected_version))) [
              | inl f ↦ absurd (cc (rw f at (rw e at h)))
              | inr f ↦ absurd (cc (rw f at (rw e at h)))
            ]
    ]

is_request-undo_event :
    (id : String) (context : Option String) (actor previous : ℕ) (key fingerprint : String)
    (snapshot : Option String) (t : Transformation) (dataset : ℕ)
    → t.dataset_id ≡ dataset
    → is_request dataset actor "undo" key
        (undo_event id context actor previous (some key) fingerprint snapshot t)
      ≡ true
is_request-undo_event id context actor previous key fingerprint snapshot t dataset own =
    rw own (ground (arith, (eq_iff key key).1 refl))

undoable_dataset : (d : Dataset) (t : Transformation) → is_undoable d t ≡ true → t.dataset_id ≡ d.id
undoable_dataset d t h = ground arith

owned_dataset-id :
    (id owner : ℕ) (c : Catalog) (d : Dataset) → owned_dataset id owner c ≡ some d → d.id ≡ id
owned_dataset-id id owner c d h =
    named (first_where-sat (is_dataset id) c.datasets d (owned_dataset-find id owner c d h).0)
  where
    named : is_dataset id d ≡ true → d.id ≡ id
    named k = ground arith

settle-Ensures :
    {A : Type 0} (st : Storage) (r : Result A × Storage) (P : A → Storage → Type 0)
    → Ensures P r
    → Ensures P (settle st r)
settle-Ensures st (ok a, st') P h = h
settle-Ensures st (err e, st') P h = tt

module _ (w : Undoing) (q : UndoRequest) (o : Observation) (key : String) where
  restore-Answers :
      (d : Dataset) (t : Transformation) (s : Storage)
      → q.idempotency_key ≡ some key
      → t.dataset_id ≡ d.id
      → first_where (is_request d.id q.user_id "undo" key) s.catalog.events ≡ none
      → Ensures (λ r s'. Answers w q key d.id s'.catalog r) (restore w q o d t s)
  unfolding restore record_undo insert_event undone
  restore-Answers d t s keyed own fresh =
      rw keyed
        (elim (Bool-cases (count_where (collides (receipt (some key))) s.catalog.events == 0)) [
          | inr n ↦ rw n tt
          | inl n ↦ rw n (
            receipt (some key),
            first_where_last (is_request d.id q.user_id "undo" key) (receipt (some key))
                s.catalog.events
                (is_request-undo_event w.event_id w.context q.user_id q.expected_version key
                  (w.fingerprint d.id q.expected_version) o.manifest_id (undone w.now t) d.id own)
                fresh,
            (eq_iff (w.fingerprint d.id q.expected_version)
                  (w.fingerprint d.id q.expected_version)).1
                refl,
            refl,
          )
        ])
    where
      receipt : Option String → DatasetEvent
      receipt k =
          undo_event w.event_id w.context q.user_id q.expected_version k
            (w.fingerprint d.id q.expected_version) o.manifest_id (undone w.now t)

  module _ (stat : Option FileStat) where
    undo_locked-Answers :
        (d : Dataset) (o' : Option Receipt) (s : Storage) (c : Catalog)
        → q.idempotency_key ≡ some key
        → s.catalog ≡ c
        → replay d.id q.user_id "undo" (some key) (w.fingerprint d.id q.expected_version) c ≡ ok o'
        → Ensures (λ r s'. Answers w q key d.id s'.catalog r) (undo_locked w q o stat d o' s)
    undo_locked-Answers d (some r) s c keyed same h =
        subst (λ k. Answers w q key d.id k r) (sym same) (replay-some w q key d.id c r h)
    undo_locked-Answers d none s c keyed same h =
        and_then-Ensures _ (λ r s'. Answers w q key d.id s'.catalog r)
          (require (d.version == q.expected_version) version_changed s) _
          (require-Ensures (d.version == q.expected_version) version_changed s)
          λ current s1 e1.
            and_then-Ensures _ (λ r s'. Answers w q key d.id s'.catalog r) (ensure_ready d s1) _
              (require-Ensures (is_ready d.status) not_ready s1)
              λ ready s2 e2.
                and_then-Ensures _ (λ r s'. Answers w q key d.id s'.catalog r)
                  (or_raise (newest (λ t. is_undoable d t && (t.user_id == q.user_id)) s2.catalog)
                    nothing_to_undo s2)
                  _
                  (or_raise-Ensures
                    (newest (λ t. is_undoable d t && (t.user_id == q.user_id)) s2.catalog)
                    nothing_to_undo s2)
                  λ t s3 e3.
                    and_then-Ensures _ (λ r s'. Answers w q key d.id s'.catalog r)
                      (require ((t.id == o.candidate_id) && str_eq t.input_path o.restored_path)
                        dataset_changed s3)
                      _
                      (require-Ensures
                        ((t.id == o.candidate_id) && str_eq t.input_path o.restored_path)
                        dataset_changed s3)
                      λ fixed s4 e4.
                        and_then-Ensures _ (λ r s'. Answers w q key d.id s'.catalog r)
                          (require
                            (same_manifest
                              (manifest w.paths s2.catalog.snapshots q.dataset_id o.restored_path)
                              o.manifest_id)
                            snapshot_fault s4)
                          _
                          (require-Ensures
                            (same_manifest
                              (manifest w.paths s2.catalog.snapshots q.dataset_id o.restored_path)
                              o.manifest_id)
                            snapshot_fault s4)
                          λ known s5 e5.
                            and_then-Ensures _ (λ r s'. Answers w q key d.id s'.catalog r)
                              (verified_or_raise (unchanged o.verified_file stat) s5) _
                              (same-Ensures (verified_or_raise (unchanged o.verified_file stat) s5)
                                c
                                (verified-catalog (unchanged o.verified_file stat) s5
                                  ∙ ap (λ (z : Storage). z.catalog)
                                      (e5.1 ∙ e4.1 ∙ e3.1 ∙ e2.1 ∙ e1.1)
                                  ∙ same))
                              λ file s6 e6.
                                restore-Answers d t s6 keyed
                                  (undoable_dataset d t (
                                    (&&-eq-true (is_undoable d t) (t.user_id == q.user_id) (
                                      newest-sat (λ t. is_undoable d t && (t.user_id == q.user_id))
                                        s2.catalog t e3.0)).0))
                                  (ap
                                      (λ (z : Catalog).
                                        first_where (is_request d.id q.user_id "undo" key) z.events)
                                      e6
                                    ∙ replay-none w q key d.id c h)

    undo_observed-Answers :
        (st : Storage)
        → q.idempotency_key ≡ some key
        → Ensures (λ r s'. Answers w q key q.dataset_id s'.catalog r) (undo_observed w q o stat st)
    unfolding undo_observed
    undo_observed-Answers st keyed =
        settle-Ensures st _ (λ r s'. Answers w q key q.dataset_id s'.catalog r)
          (and_then-Ensures _ (λ r s'. Answers w q key q.dataset_id s'.catalog r)
            (on_database (λ db. (lock_owner db q.user_id, db)) st) _
            (same-Ensures (on_database (λ db. (lock_owner db q.user_id, db)) st) st.catalog refl)
            λ locked s1 e1.
              and_then-Ensures _ (λ r s'. Answers w q key q.dataset_id s'.catalog r)
                (or_raise (owned_dataset q.dataset_id q.user_id s1.catalog) dataset_not_found s1) _
                (or_raise-Ensures (owned_dataset q.dataset_id q.user_id s1.catalog)
                  dataset_not_found s1)
                λ d s2 e2.
                  and_then-Ensures _ (λ r s'. Answers w q key q.dataset_id s'.catalog r)
                    (lift
                      (replay d.id q.user_id "undo" q.idempotency_key
                        (w.fingerprint d.id q.expected_version) s1.catalog)
                      s2)
                    _
                    (lift-Ensures
                      (replay d.id q.user_id "undo" q.idempotency_key
                        (w.fingerprint d.id q.expected_version) s1.catalog)
                      s2)
                    λ receipt s3 e3.
                      subst
                        (λ n.
                          Ensures (λ r s'. Answers w q key n s'.catalog r)
                            (undo_locked w q o stat d receipt s3))
                        (owned_dataset-id q.dataset_id q.user_id s1.catalog d e2.0)
                        (undo_locked-Answers d receipt s3 s1.catalog keyed
                          (ap (λ (z : Storage). z.catalog) (e3.1 ∙ e2.1))
                          (ap
                              (λ k.
                                replay d.id q.user_id "undo" k
                                  (w.fingerprint d.id q.expected_version) s1.catalog)
                              (sym keyed)
                            ∙ e3.0)))

answered :
    (w w' : Undoing) (q : UndoRequest) (key : String) (s : Storage) (r : Receipt) (d : Dataset)
    (reading : String → Reading) (stat : Observation → Option FileStat)
    → q.idempotency_key ≡ some key
    → w'.fingerprint ≡ w.fingerprint
    → valid_key w' (some key) ≡ true
    → owned_dataset q.dataset_id q.user_id s.catalog ≡ some d
    → Answers w q key q.dataset_id s.catalog r
    → undo_last w' q reading stat s ≡ (ok r, s)
unfolding undo_last observe
answered w w' q key s r d reading stat keyed same valid owned a =
    rw keyed
      (rw valid (rw owned (rw same (rw (replay-Answers w q key q.dataset_id s.catalog r a) refl))))

-- An undo under a key that committed, then any history: the same request, sent again while the user
-- still owns the dataset, is answered with the receipt of the first, and changes nothing.
pub undo_last-run :
    {F : Type 0} (w w' : Undoing) (q : UndoRequest) (o : Observation) (stat : Option FileStat)
    (key : String) (st st' : Storage) (r : Receipt) (cs : List (Call F))
    (reading : String → Reading) (restat : Observation → Option FileStat) (d : Dataset)
    → q.idempotency_key ≡ some key
    → undo_observed w q o stat st ≡ (ok r, st')
    → w'.fingerprint ≡ w.fingerprint
    → valid_key w' (some key) ≡ true
    → owned_dataset q.dataset_id q.user_id (run cs (idle st')).storage.catalog ≡ some d
    → undo_last w' q reading restat (run cs (idle st')).storage
      ≡ (ok r, (run cs (idle st')).storage)
undo_last-run w w' q o stat key st st' r cs reading restat d keyed committed same valid owned =
    let here : Answers w q key q.dataset_id st'.catalog r =
      subst (Ensures (λ x s. Answers w q key q.dataset_id s.catalog x)) committed
        (undo_observed-Answers w q o key stat st keyed) in
    answered w w' q key (run cs (idle st')).storage r d reading restat keyed same valid owned (
      Answers-Extends w q key q.dataset_id st'.catalog (run cs (idle st')).storage.catalog r
        (run-Extends cs st') here)
