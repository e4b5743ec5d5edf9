-- ===== src/Artifacts/Publication.antt =====
-- A reservation and its publication.
use data_analytics_platform.Base.{
  ℕ, ◌≡◌, refl, sym, ap, ◌∙◌, List, [], ◌∷◌, ◌++◌, true, none, some, ◌==◌, str_eq, eq_refl, eq_iff,
  arith, inl, inr, Bool-cases, first_where, count_where, first_where-update_key,
}
use data_analytics_platform.Schema.{ok}
use data_analytics_platform.Jobs.Worker.{get}
use data_analytics_platform.Artifacts.Table.{StorageArtifact, ArtifactState, Storage, has_id}
use data_analytics_platform.Artifacts.Writer.{
  Paths, Reservation, reserve, reserved_row, insert_artifact, publish, published, find_artifact,
  job_runs, collides,
}

first_where-insert :
    (a : StorageArtifact) (rows : List StorageArtifact)
    → count_where (collides a) rows ≡ 0
    → first_where (has_id a.id) (rows ++ a ∷ []) ≡ some a
unfolding first_where count_where
first_where-insert a [] h = ground (arith, eq_refl a.id)
first_where-insert a (x ∷ rows) h = elim (Bool-cases (has_id a.id x)) [
  | inl e ↦
      let same : str_eq a.id x.id ≡ true = (eq_iff a.id x.id).1 (sym ((eq_iff x.id a.id).0 e)) in
      absurd (ground arith)
  | inr e ↦ ground (arith, first_where-insert a rows)
]

inserted :
    (row a : StorageArtifact) (st : Storage)
    → (insert_artifact row st).0 ≡ ok a
    → (a ≡ row)
      × (find_artifact row.id (insert_artifact row st).1 ≡ some row)
      × ((insert_artifact row st).1.database ≡ st.database)
inserted row a st h = elim (Bool-cases (count_where (collides row) st.artifacts == 0)) [
  | inr e ↦ absurd (ground arith)
  | inl e ↦ (ground arith, rw e (first_where-insert row st.artifacts (ground arith)), rw e refl)
]

-- A reservation that was granted has inserted its row, and no other of its id.
granted :
    (p : Paths) (q : Reservation) (now : ℕ) (st : Storage) (a : StorageArtifact)
    → (reserve p q now st).0 ≡ ok a
    → (find_artifact q.id (reserve p q now st).1 ≡ some (reserved_row p q now))
      × ((reserve p q now st).1.database ≡ st.database)
unfolding reserve
granted p q now st a h =
    elim (Bool-cases (str_eq (p.abspath q.final_path) (p.abspath q.temporary_path))) [
      | inl e ↦ absurd (ground arith)
      | inr e ↦
          elim (Bool-cases
            (str_eq (p.parent (p.abspath q.final_path)) (p.parent (p.abspath q.temporary_path)))) [
              | inr f ↦ absurd (ground arith)
              | inl f ↦
                  elim (Bool-cases
                    (job_runs q.owner_id q.attempt_token now (get st.database q.task_id))) [
                      | inr g ↦ absurd (ground arith)
                      | inl g ↦
                          let made : (insert_artifact (reserved_row p q now) st).0 ≡ ok a =
                            (rw e (rw f (rw g refl))) ∙ h in
                          let (same, found, kept) = inserted (reserved_row p q now) a st made in
                          rw e (rw f (rw g (found, kept)))
                    ]
            ]
    ]

published-row :
    (p : Paths) (q : Reservation) (now later : ℕ) (st : Storage)
    → find_artifact q.id st ≡ some (reserved_row p q now)
    → job_runs q.owner_id q.attempt_token later (get st.database q.task_id) ≡ true
    → ((publish q.id q.attempt_token later st).0 ≡ ok (published (reserved_row p q now)))
      × (find_artifact q.id (publish q.id q.attempt_token later st).1
          ≡ some (published (reserved_row p q now)))
unfolding publish
published-row p q now later st found still = rw found (
    rw still (
      rw (eq_refl q.attempt_token) (
        refl,
        first_where-update_key (has_id q.id) published st.artifacts (reserved_row p q now)
            (unfold published in λ x m. m) found,
      )))

-- An artifact that `reserve` has granted can be published at once by its attempt, at any time at which
-- the attempt still runs the job under a live lease: `publish` returns a row that the table then holds
-- under the reservation's id. It is LIVE without an expiry and without a request for deletion, and it
-- names the owner, the task, the attempt and the final path that were reserved.
pub publish-reserve :
    (p : Paths) (q : Reservation) (now later : ℕ) (st : Storage) (a : StorageArtifact)
    → (reserve p q now st).0 ≡ ok a
    → job_runs q.owner_id q.attempt_token later (get st.database q.task_id) ≡ true
    → (b : StorageArtifact) × ((publish q.id q.attempt_token later (reserve p q now st).1).0 ≡ ok b)
      × (find_artifact q.id (publish q.id q.attempt_token later (reserve p q now st).1).1 ≡ some b)
      × (b.state ≡ ArtifactState.live)
      × (b.expires_at ≡ none)
      × (b.deletion_requested_at ≡ none)
      × (b.owner_id ≡ some q.owner_id)
      × (b.task_id ≡ some q.task_id)
      × (b.attempt_token ≡ some q.attempt_token)
      × (b.final_path ≡ p.abspath q.final_path)
unfolding publish published
publish-reserve p q now later st a h runs =
    let (found, same) = granted p q now st a h in
    let still : job_runs q.owner_id q.attempt_token later
          (get (reserve p q now st).1.database q.task_id)
        ≡ true =
      ap (λ db. job_runs q.owner_id q.attempt_token later (get db q.task_id)) same ∙ runs in
    let whole = published-row p q now later (reserve p q now st).1 found still in
    (published (reserved_row p q now), whole.0, whole.1, refl, refl, refl, refl, refl, refl, refl)
