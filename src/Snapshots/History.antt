-- ===== src/Snapshots/History.antt =====
-- What a whole run of `expire_history` leaves.
use data_analytics_platform.Base.{
  ℕ, ◌-◌, ◌*◌, ◌≡◌, ◌≤◌, refl, min, max, List, [], ◌∷◌, map, take, filter, String, Bool, true, ◌&&◌,
  leb, not, some, ◌==◌, arith, inl, inr, Bool-cases, count_where, count_where_pos,
  count_where_keyed, eq_refl, first_where, order_by, IsSingle, All, All-filter, All-take, All-map,
  All-implies, All-order_by,
}
use data_analytics_platform.Schema.{Result, ok, err}
use data_analytics_platform.Jobs.Clock.{second}
use data_analytics_platform.Artifacts.Table.{Storage}
use data_analytics_platform.Schema.Catalog.{DatasetSnapshot}
use data_analytics_platform.Artifacts.Writer.{Paths}
use data_analytics_platform.Snapshots.Expiry.{
  RetentionSettings, snapshot_id, retained, Candidate, expire_each, is_expirable, rotates_before,
  expire_history, enabled,
}
use data_analytics_platform.Snapshots.Rows.{strays}
use data_analytics_platform.Snapshots.Retention.{expire_each-newest}

-- Every row is the first of its id, where no id repeats.
own_first :
    (rows : List DatasetSnapshot)
    → ((id : String) → IsSingle (snapshot_id id) rows)
    → All (λ m. first_where (snapshot_id m.id) rows ≡ some m) rows
unfolding first_where count_where
own_first [] u = tt
own_first (x ∷ xs) u = (
  rw (eq_refl x.id) refl,
  All-implies (λ m. first_where (snapshot_id m.id) xs ≡ some m)
      (λ m. first_where (snapshot_id m.id) (x ∷ xs) ≡ some m) (λ m f. later_first m f) xs
      (own_first xs (λ id. omega (arith, u id))),
)
  where
    later_first :
        (m : DatasetSnapshot)
        → first_where (snapshot_id m.id) xs ≡ some m
        → first_where (snapshot_id m.id) (x ∷ xs) ≡ some m
    later_first m f = ground (arith, u m.id, count_where_pos (snapshot_id m.id) xs m f)

single_strays :
    (c : Candidate) (rows : List DatasetSnapshot) (m : DatasetSnapshot)
    → IsSingle (snapshot_id m.id) rows
    → c.snapshot_id ≡ m.id
    → c.dataset_id ≡ m.dataset_id
    → first_where (snapshot_id m.id) rows ≡ some m
    → count_where (strays c) rows ≡ 0
unfolding strays
single_strays c rows m u i d f = rw i (
    rw d (
      ground (
        arith,
        count_where_keyed (snapshot_id m.id) (λ x. not (x.dataset_id == m.dataset_id)) rows m u f,
      )))

enabled_storage : (r : Result ℕ × Storage) → (enabled r).1 ≡ r.1
enabled_storage (ok n, st) = refl
enabled_storage (err e, st) = refl

-- A run of the retention expires none of the newest versions: where ids are unique and a candidate
-- names its row's id and dataset, take a snapshot that is the row of its id and an available version of
-- a dataset, where no more of the dataset's available versions than `SNAPSHOT_RETENTION_KEEP_LAST` have
-- its version or a greater one. After the run the row of this id is still an available version of the
-- dataset, with the same number, whatever the days, the limit, the clock, the order of the ids and the
-- jobs, and also when a candidate's transaction fails.
pub expire_history-newest :
    (p : Paths) (s : RetentionSettings) (earlier : String → String → Bool)
    (candidate : DatasetSnapshot → Candidate) (limit now : ℕ) (st : Storage)
    → ((id : String) → IsSingle (snapshot_id id) st.catalog.snapshots)
    → ((m : DatasetSnapshot) → (candidate m).snapshot_id ≡ m.id)
    → ((m : DatasetSnapshot) → (candidate m).dataset_id ≡ m.dataset_id)
    → (dataset : ℕ) (m : DatasetSnapshot)
    → first_where (snapshot_id m.id) st.catalog.snapshots ≡ some m
    → retained dataset m ≡ true
    → count_where (λ x. retained dataset x && leb m.version x.version) st.catalog.snapshots
      ≤ s.snapshot_retention_keep_last
    → (x : DatasetSnapshot) × (first_where
          (snapshot_id m.id)
          (expire_history p s earlier candidate limit now st).1.catalog.snapshots
        ≡ some x)
      × (x.version ≡ m.version)
      × (retained dataset x ≡ true)
unfolding expire_history
expire_history-newest p s earlier candidate limit now st u i d dataset m f r l =
    elim (Bool-cases (s.snapshot_retention_days == 0)) [
      | inl e ↦ rw e (m, f, refl, r)
      | inr e ↦
          let rows = st.catalog.snapshots in
          let cutoff = now - s.snapshot_retention_days * 86400 * second in
          let old = filter (is_expirable cutoff) rows in
          let n = min (max limit 1) 1000 in
          let named = λ (m : DatasetSnapshot). count_where (strays (candidate m)) rows ≡ 0 in
          let all =
            All-implies (λ m. first_where (snapshot_id m.id) rows ≡ some m) named
              (λ m f. single_strays (candidate m) rows m (u m.id) (i m) (d m) f) rows
              (own_first rows u) in
          let sorted =
            All-order_by (rotates_before earlier) named old
              (All-filter named (is_expirable cutoff) rows all) in
          let taken = All-take named n (order_by (rotates_before earlier) old) sorted in
          let cs =
            All-map (λ c. count_where (strays c) rows ≡ 0) candidate
              (take n (order_by (rotates_before earlier) old)) taken in
          let (x, g, same, kept, few) =
            expire_each-newest p s (map candidate (take n (order_by (rotates_before earlier) old)))
              0 st u cs dataset m.id m.version (m, f, refl, r, l) in
          rw e (
            rw
              (enabled_storage (
                expire_each p s (map candidate (take n (order_by (rotates_before earlier) old))) 0
                  st))
              (x, g, same, kept))
    ]
