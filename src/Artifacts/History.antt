-- ===== src/Artifacts/History.antt =====
-- Tombstones: whatever transactions follow, a row whose collection has begun stays in collection,
-- and no delayed writer publishes it.
use data_analytics_platform.Base.{
  ℕ, ◌≡◌, refl, sym, ap, ◌∙◌, List, [], ◌∷◌, ◌++◌, String, Bool, true, false, not, ◌&&◌, ◌||◌,
  Option, none, some, ◌==◌, str_eq, opt_eq, eq_iff, arith, inl, inr, Bool-cases, Option-cases,
  if◌then◌else◌, update_where, first_where, count_where, first_where-append,
  first_where-update_same, first_where-sat, first_where-update_key, subst,
}
use data_analytics_platform.Schema.{
  Database, Result, ok, err, state_conflict, Conflict, writer_lost, not_publishable,
}
use data_analytics_platform.Jobs.Worker.{get}
use data_analytics_platform.Artifacts.Table.{
  ArtifactState, StorageArtifact, Storage, is_tombstone, is_reserved, is_deleting, has_id, has_path,
}
use data_analytics_platform.Schema.Catalog.{Catalog}
use data_analytics_platform.Artifacts.Writer.{
  Paths, Reservation, reserve, publish, published, schedule_delete, requested, abandon_attempt,
  publish_found, find_artifact, in_reservation, insert_artifact, insert_deletion, schedule_found,
  deletion_row, reserved_row, owner_runs, job_of, collides, job_runs,
}
use data_analytics_platform.Artifacts.Cleanup.{
  Candidate, Verdict, whole, keep, auxiliaries, begin_collect, finish_collect, begin_found,
  change_of, checked, collecting, closed,
}

-- One committed transaction on the artifacts, or a change of the other tables.
pub data StorageCall : Type 0 where
  reserving : Reservation → ℕ → StorageCall
  publishing : String → String → ℕ → StorageCall
  scheduling : String → String → Option ℕ → ℕ → List StorageArtifact → StorageCall
  abandoning : String → String → ℕ → StorageCall
  beginning : Candidate → ℕ → StorageCall
  finishing : String → StorageCall
  elsewhere : Database → Catalog → StorageCall

module _ (p : Paths) where
  unfoldable pub apply : StorageCall → Storage → Storage
  unfolding reserve publish schedule_delete abandon_attempt begin_collect finish_collect
  apply (reserving q now) st = (reserve p q now st).1
  apply (publishing id token now) st = (publish id token now st).1
  apply (scheduling id path owner now raced) st = schedule_delete p id path owner now raced st
  apply (abandoning task token now) st = (abandon_attempt task token now st).1
  apply (beginning c now) st = (begin_collect p c now st).1
  apply (finishing id) st = finish_collect id st
  apply (elsewhere db c) st = record st { database = db; catalog = c }

  unfoldable pub apply_all : List StorageCall → Storage → Storage
  unfolding apply
  apply_all [] st = st
  apply_all (call ∷ calls) st = apply_all calls (apply call st)

-- The artifact is in collection.
abbrev pub IsTombstone : String → List StorageArtifact → Type 0
IsTombstone id rows =
    (a : StorageArtifact) × (first_where (has_id id) rows ≡ some a) × (is_tombstone a.state ≡ true)

IsTombstone-append :
    (id : String) (rows more : List StorageArtifact)
    → IsTombstone id rows
    → IsTombstone id (rows ++ more)
IsTombstone-append id rows more (a, e, t) = (a, first_where-append (has_id id) rows more a e, t)

-- An update that keeps ids and tombstones.
IsTombstone-update :
    (id : String) (q : StorageArtifact → Bool) (f : StorageArtifact → StorageArtifact)
    → ((a : StorageArtifact) → (f a).id ≡ a.id)
    → ((a : StorageArtifact) → is_tombstone a.state ≡ true → is_tombstone (f a).state ≡ true)
    → (rows : List StorageArtifact) → IsTombstone id rows
    → IsTombstone id (update_where q f rows)
IsTombstone-update id q f same stays rows (a, e, t) = (
  if q a then f a else a,
  first_where-update_same (has_id id) q f (λ s. ap (λ i. str_eq i id) (same s)) rows a e,
  ground (arith, stays a t),
)

insert_artifact-IsTombstone :
    (id : String) (row : StorageArtifact) (st : Storage)
    → IsTombstone id st.artifacts
    → IsTombstone id (insert_artifact row st).1.artifacts
insert_artifact-IsTombstone id row st h =
    elim (Bool-cases (count_where (collides row) st.artifacts == 0)) [
      | inl e ↦ rw e (IsTombstone-append id st.artifacts (row ∷ []) h)
      | inr e ↦ rw e h
    ]

reserve-IsTombstone :
    (p : Paths) (q : Reservation) (now : ℕ) (id : String) (st : Storage)
    → IsTombstone id st.artifacts
    → IsTombstone id (reserve p q now st).1.artifacts
unfolding reserve
reserve-IsTombstone p q now id st h =
    elim (Bool-cases (str_eq (p.abspath q.final_path) (p.abspath q.temporary_path))) [
      | inl e ↦ rw e h
      | inr e ↦
          rw e
            (elim (Bool-cases (
              str_eq (p.parent (p.abspath q.final_path)) (p.parent (p.abspath q.temporary_path)))) [
                | inr f ↦ rw f h
                | inl f ↦
                    rw f
                      (elim (Bool-cases
                        (job_runs q.owner_id q.attempt_token now (get st.database q.task_id))) [
                          | inr g ↦ rw g h
                          | inl g ↦
                              rw g (insert_artifact-IsTombstone id (reserved_row p q now) st h)
                        ])
              ])
    ]

requested-IsTombstone :
    (id : String) (q : StorageArtifact → Bool) (now : ℕ) (rows : List StorageArtifact)
    → IsTombstone id rows
    → IsTombstone id (update_where q (requested now) rows)
requested-IsTombstone id q now rows h =
    IsTombstone-update id q (requested now) (unfold requested in λ a. refl)
      (unfold requested in λ a t. t) rows h

insert_deletion-IsTombstone :
    (id : String) (r : Result StorageArtifact × Storage) (path : String) (now : ℕ)
    → IsTombstone id r.1.artifacts
    → IsTombstone id (insert_deletion r path now).artifacts
insert_deletion-IsTombstone id (ok a, st) path now h = h
insert_deletion-IsTombstone id (err e, st) path now h =
    requested-IsTombstone id (has_path path) now st.artifacts h

schedule_found-IsTombstone :
    (id : String) (o : Option StorageArtifact) (row : StorageArtifact) (path : String) (now : ℕ)
    (raced : List StorageArtifact) (st : Storage)
    → IsTombstone id st.artifacts
    → IsTombstone id (schedule_found o row path now raced st).artifacts
schedule_found-IsTombstone id none row path now raced st h =
    insert_deletion-IsTombstone id
      (insert_artifact row (record st { artifacts = st.artifacts ++ raced })) path now
      (insert_artifact-IsTombstone id row (record st { artifacts = st.artifacts ++ raced })
        (IsTombstone-append id st.artifacts raced h))
schedule_found-IsTombstone id (some a) row path now raced st h =
    requested-IsTombstone id (has_path path) now st.artifacts h

-- A verdict to collect makes the candidate's row a tombstone.
begun :
    (p : Paths) (c : Candidate) (now : ℕ) (st : Storage) (a : StorageArtifact)
    → (begin_collect p c now st).0 ≡ whole a
    → IsTombstone c.id (begin_collect p c now st).1.artifacts
unfolding begin_collect
begun p c now st a h = elim (Option-cases (find_artifact c.id st)) [
  | inl e ↦
      let missing : begin_found p c.task_id now (find_artifact c.id st) st ≡ keep = rw e refl in
      absurd (cc)
  | inr (b, e) ↦
      subst (λ v. IsTombstone c.id (update_where (has_id c.id) (change_of v now) st.artifacts))
        (sym h)
        (
          collecting now b,
          first_where-update_key (has_id c.id) (collecting now) st.artifacts b
              (unfold collecting in λ x m. m) e,
          unfold collecting in refl,
        )
]

tombstone_unreserved : (s : ArtifactState) → is_tombstone s ≡ true → is_reserved s ≡ false
tombstone_unreserved ArtifactState.reserved h = absurd (cc)
tombstone_unreserved ArtifactState.live h = refl
tombstone_unreserved ArtifactState.deleting h = refl
tombstone_unreserved ArtifactState.deleted h = refl

-- The writer's refusal.
abbrev pub IsRefused : Result StorageArtifact × Storage → Storage → Type 0
IsRefused r st = (c : Conflict) × (r ≡ (err (state_conflict c), st))

publish_found-IsRefused :
    (id token : String) (now : ℕ) (a : StorageArtifact) (st : Storage)
    → is_tombstone a.state ≡ true
    → IsRefused (publish_found id token now (some a) st) st
publish_found-IsRefused id token now a st t =
    elim (Bool-cases (owner_runs a.owner_id token now (job_of st.database a.task_id))) [
      | inr e ↦ rw e (writer_lost, refl)
      | inl e ↦ rw e (rw (tombstone_unreserved a.state t) (not_publishable, refl))
    ]

publish_found-IsTombstone :
    (other token : String) (now : ℕ) (id : String) (a b : StorageArtifact) (st : Storage)
    → first_where (has_id id) st.artifacts ≡ some a
    → is_tombstone a.state ≡ true
    → has_id other a ≡ false
    → IsTombstone id (publish_found other token now (some b) st).1.artifacts
publish_found-IsTombstone other token now id a b st e t m =
    elim (Bool-cases (owner_runs b.owner_id token now (job_of st.database b.task_id))) [
      | inr g ↦ rw g (a, e, t)
      | inl g ↦
          rw g
            (elim (Bool-cases
              (not (is_reserved b.state) || not (opt_eq b.attempt_token (some token)))) [
                | inl k ↦ rw k (a, e, t)
                | inr k ↦ rw k (
                  a,
                  first_where-update_same (has_id id) (has_id other) published
                        (unfold published in λ x. refl) st.artifacts a e
                      ∙ ap some (rw m refl),
                  t,
                )
              ])
    ]

publish-IsTombstone :
    (other token : String) (now : ℕ) (id : String) (st : Storage)
    → IsTombstone id st.artifacts
    → IsTombstone id (publish other token now st).1.artifacts
unfolding publish
publish-IsTombstone other token now id st (a, e, t) =
    elim (Option-cases (first_where (has_id other) st.artifacts)) [
      | inl n ↦ rw n (a, e, t)
      | inr (b, f) ↦ elim (Bool-cases (has_id other a)) [
        | inl m ↦
            let same_id : other ≡ id =
              sym ((eq_iff a.id other).0 m)
              ∙ (eq_iff a.id id).0 (first_where-sat (has_id id) st.artifacts a e) in
            let same : first_where (has_id other) st.artifacts ≡ some a =
              ap (λ i. first_where (has_id i) st.artifacts) same_id ∙ e in
            let (c, r) = publish_found-IsRefused other token now a st t in rw same (rw r (a, e, t))
        | inr m ↦ rw f (publish_found-IsTombstone other token now id a b st e t m)
      ]
    ]

begin_collect-IsTombstone :
    (p : Paths) (c : Candidate) (now : ℕ) (id : String) (st : Storage)
    → IsTombstone id st.artifacts
    → IsTombstone id (begin_collect p c now st).1.artifacts
unfolding begin_collect
begin_collect-IsTombstone p c now id st h =
    change_of-IsTombstone (begin_found p c.task_id now (find_artifact c.id st) st)
  where
    change_of-IsTombstone :
        (v : Verdict) → IsTombstone id (update_where (has_id c.id) (change_of v now) st.artifacts)
    change_of-IsTombstone (whole a) =
        IsTombstone-update id (has_id c.id) (collecting now) (unfold collecting in λ x. refl)
          (unfold collecting in λ x t. refl) st.artifacts h
    change_of-IsTombstone keep =
        IsTombstone-update id (has_id c.id) (checked now) (unfold checked in λ x. refl)
          (unfold checked in λ x t. t) st.artifacts h
    change_of-IsTombstone (auxiliaries a) =
        IsTombstone-update id (has_id c.id) (checked now) (unfold checked in λ x. refl)
          (unfold checked in λ x t. t) st.artifacts h

finish_collect-IsTombstone :
    (other id : String) (st : Storage)
    → IsTombstone id st.artifacts
    → IsTombstone id (finish_collect other st).artifacts
unfolding finish_collect
finish_collect-IsTombstone other id st h =
    IsTombstone-update id (λ a. has_id other a && is_deleting a.state) closed (λ a. refl)
      (λ a t. refl) st.artifacts h

apply-IsTombstone :
    (p : Paths) (call : StorageCall) (id : String) (st : Storage)
    → IsTombstone id st.artifacts
    → IsTombstone id (apply p call st).artifacts
unfolding apply schedule_delete abandon_attempt
apply-IsTombstone p (reserving q now) id st h = reserve-IsTombstone p q now id st h
apply-IsTombstone p (publishing other token now) id st h =
    publish-IsTombstone other token now id st h
apply-IsTombstone p (scheduling fresh path owner now raced) id st h =
    schedule_found-IsTombstone id (first_where (has_path (p.abspath path)) st.artifacts)
      (deletion_row fresh owner (p.abspath path) now) (p.abspath path) now raced st h
apply-IsTombstone p (abandoning task token now) id st h =
    requested-IsTombstone id (in_reservation task token) now st.artifacts h
apply-IsTombstone p (beginning c now) id st h = begin_collect-IsTombstone p c now id st h
apply-IsTombstone p (finishing other) id st h = finish_collect-IsTombstone other id st h
apply-IsTombstone p (elsewhere db c) id st h = h

pub apply_all-IsTombstone :
    (p : Paths) (calls : List StorageCall) (id : String) (st : Storage)
    → IsTombstone id st.artifacts
    → IsTombstone id (apply_all p calls st).artifacts
unfolding apply_all
apply_all-IsTombstone p [] id st h = h
apply_all-IsTombstone p (call ∷ calls) id st h =
    apply_all-IsTombstone p calls id (apply p call st) (apply-IsTombstone p call id st h)

publish-IsRefused :
    (id token : String) (now : ℕ) (st : Storage)
    → IsTombstone id st.artifacts
    → IsRefused (publish id token now st) st
unfolding publish
publish-IsRefused id token now st (a, e, t) =
    subst (λ o. IsRefused (publish_found id token now o st) st) (sym e)
      (publish_found-IsRefused id token now a st t)

-- Once the collector has decided to collect an artifact's files, then whatever transactions on
-- artifacts follow, and however the jobs and the catalog change, `publish` of that artifact is refused
-- with a conflict and changes nothing.
pub begin_collect-final :
    (p : Paths) (c : Candidate) (now : ℕ) (st : Storage) (a : StorageArtifact)
    → (begin_collect p c now st).0 ≡ whole a
    → (calls : List StorageCall) (token : String) (later : ℕ)
    → IsRefused
        (publish c.id token later (apply_all p calls (begin_collect p c now st).1))
        (apply_all p calls (begin_collect p c now st).1)
begin_collect-final p c now st a h calls token later =
    publish-IsRefused c.id token later (apply_all p calls (begin_collect p c now st).1)
      (apply_all-IsTombstone p calls c.id (begin_collect p c now st).1 (begun p c now st a h))
