-- ===== src/Snapshots/Retention.antt =====
-- What a turn of `expire_history` leaves: every row that was among the newest of its dataset.
use data_analytics_platform.Base.{
  ℕ, ◌≡◌, ◌≤◌, refl, sym, ap, subst, ◌∙◌, eq_refl, str_eq, first_where-update_same, List, [], ◌∷◌,
  String, Bool, true, false, some, ◌==◌, arith, inl, inr, Bool-cases, Option-cases, count_where,
  count_where-update_same, ◌⊎◌, eq_iff, first_where, first_where-sat, update_where, IsSingle, All,
}
use data_analytics_platform.Schema.{Result, ok, err}
use data_analytics_platform.Jobs.Admission.{lock_owner}
use data_analytics_platform.Artifacts.Table.{Storage}
use data_analytics_platform.Schema.Catalog.{Dataset, DatasetSnapshot}
use data_analytics_platform.Artifacts.Writer.{Paths}
use data_analytics_platform.Snapshots.Expiry.{
  RetentionSettings, snapshot_id, retained, contains, recent, is_kept, seen_at, expired_at,
  set_snapshot, Candidate, expire, counted, go_on, expire_each,
}
use data_analytics_platform.Snapshots.Rows.{
  schedule_delete-catalog, not_recent, strays, candidate_dataset,
}
use data_analytics_platform.Snapshots.Recent.{upper, recent-contains}

-- What a candidate's turn does to the rows of the table.
module _ (p : Paths) (s : RetentionSettings) where
  expire-cases :
      (c : Candidate) (st : Storage)
      → ((expire p s c st).1.catalog.snapshots ≡ st.catalog.snapshots)
        ⊎ (((expire p s c st).1.catalog.snapshots
              ≡ update_where (snapshot_id c.snapshot_id) (seen_at c.now) st.catalog.snapshots)
            ⊎ ((d : Dataset) × (m : DatasetSnapshot) × ((d.id == c.dataset_id) ≡ true)
                × (first_where (snapshot_id c.snapshot_id) st.catalog.snapshots ≡ some m)
                × (is_kept p s st d m ≡ false)
                × ((expire p s c st).1.catalog.snapshots
                    ≡ update_where
                        (snapshot_id c.snapshot_id)
                        (expired_at c.now c.later)
                        st.catalog.snapshots)))
  unfolding expire lock_owner
  expire-cases c st =
      elim (Bool-cases (count_where (λ u. u == c.owner_id) st.database.users == 1)) [
        | inr e ↦ inl (rw e refl)
        | inl e ↦
            elim (Option-cases
              (first_where (λ (d : Dataset). d.id == c.dataset_id) st.catalog.datasets)) [
                | inl f ↦ inl (rw e (rw f refl))
                | inr (d, f) ↦
                    elim (Option-cases
                      (first_where (snapshot_id c.snapshot_id) st.catalog.snapshots)) [
                        | inl g ↦ inl (rw e (rw f (rw g refl)))
                        | inr (m, g) ↦ elim (Bool-cases (is_kept p s st d m)) [
                          | inl k ↦ inr (inl (rw e (rw f (rw g (rw k refl)))))
                          | inr k ↦
                              let gone = set_snapshot c.snapshot_id (expired_at c.now c.later) st in
                              let same =
                                schedule_delete-catalog p c.fresh_id m.stored_path (some c.owner_id)
                                  c.later [] gone in
                              inr (
                                inr (
                                  d,
                                  m,
                                  first_where-sat (λ (x : Dataset). x.id == c.dataset_id)
                                      st.catalog.datasets d f,
                                  g,
                                  k,
                                  rw e (rw f (rw g (rw k (ap (λ k. k.snapshots) same)))),
                                ))
                        ]
                      ]
              ]
      ]

  -- A test that no turn changes on a row keeps its count.
  expire-same :
      (q : DatasetSnapshot → Bool)
      → ((now : ℕ) (m : DatasetSnapshot) → q (seen_at now m) ≡ q m)
      → ((now later : ℕ) (m : DatasetSnapshot) → q (expired_at now later m) ≡ q m)
      → (c : Candidate) (st : Storage)
      → count_where q (expire p s c st).1.catalog.snapshots ≡ count_where q st.catalog.snapshots
  expire-same q seen gone c st = elim (expire-cases c st) [
    | inl e ↦ rw e refl
    | inr (inl e) ↦ rw e (
        count_where-update_same q (snapshot_id c.snapshot_id) (seen_at c.now) (seen c.now)
          st.catalog.snapshots)
    | inr (inr (d, m, i, f, k, e)) ↦ rw e (
        count_where-update_same q (snapshot_id c.snapshot_id) (expired_at c.now c.later)
          (gone c.now c.later) st.catalog.snapshots)
  ]

  -- The row of this id is an available version of the dataset, and no more of its available versions
  -- than `keep_last` come up to it, itself included.
  abbrev pub IsAmongNewest : ℕ → String → ℕ → List DatasetSnapshot → Type 0
  IsAmongNewest dataset id v rows =
      (m : DatasetSnapshot) × (first_where (snapshot_id id) rows ≡ some m)
      × (m.version ≡ v)
      × (retained dataset m ≡ true)
      × (count_where (upper dataset v) rows ≤ s.snapshot_retention_keep_last)

  -- Looking at a row keeps it and the others where they are.
  seen-IsAmongNewest :
      (c : Candidate) (rows : List DatasetSnapshot) (dataset : ℕ) (id : String) (v : ℕ)
      → IsAmongNewest dataset id v rows
      → IsAmongNewest dataset id v (update_where (snapshot_id c.snapshot_id) (seen_at c.now) rows)
  unfolding seen_at
  seen-IsAmongNewest c rows dataset id v (m, f, same, r, l) =
      let row =
        first_where-update_same (snapshot_id id) (snapshot_id c.snapshot_id) (seen_at c.now)
          (λ x. refl) rows m f in
      let few : count_where (upper dataset v)
            (update_where (snapshot_id c.snapshot_id) (seen_at c.now) rows)
          ≤ s.snapshot_retention_keep_last =
        omega (
          arith,
          l,
          count_where-update_same (upper dataset v) (snapshot_id c.snapshot_id) (seen_at c.now)
              (λ x. refl) rows,
        ) in
      elim (Bool-cases (str_eq m.id c.snapshot_id)) [
        | inl e ↦ (seen_at c.now m, rw e at row, same, r, few)
        | inr e ↦ (m, rw e at row, same, r, few)
      ]

  -- A row that a turn expires is another one.
  expired-other :
      (c : Candidate) (st : Storage) (d : Dataset) (m q : DatasetSnapshot) (dataset : ℕ)
      (id : String)
      → IsSingle (snapshot_id c.snapshot_id) st.catalog.snapshots
      → count_where (strays c) st.catalog.snapshots ≡ 0
      → (d.id == c.dataset_id) ≡ true
      → first_where (snapshot_id c.snapshot_id) st.catalog.snapshots ≡ some q
      → is_kept p s st d q ≡ false
      → first_where (snapshot_id id) st.catalog.snapshots ≡ some m
      → retained dataset m ≡ true
      → count_where (upper dataset m.version) st.catalog.snapshots ≤ s.snapshot_retention_keep_last
      → str_eq m.id c.snapshot_id ≡ false
  expired-other c st d m q dataset id u z i g k f r l =
      let rows = st.catalog.snapshots in
      elim (Bool-cases (str_eq m.id c.snapshot_id)) [
        | inr e ↦ e
        | inl e ↦
            let mine : m.id ≡ id = (eq_iff m.id id).0 (first_where-sat (snapshot_id id) rows m f) in
            let here : m.id ≡ c.snapshot_id = (eq_iff m.id c.snapshot_id).0 e in
            let found : first_where (snapshot_id c.snapshot_id) rows ≡ some m =
              subst (λ x. first_where (snapshot_id x) rows ≡ some m) (sym mine ∙ here) f in
            let row : q ≡ m = cc in
            let own : m.dataset_id ≡ c.dataset_id = candidate_dataset c rows m u z found in
            let same : dataset ≡ d.id = ground arith in
            let old : contains m.id (recent s.snapshot_retention_keep_last d.id rows) ≡ false =
              not_recent p s st d m (subst (λ x. is_kept p s st d x ≡ false) row k) in
            let kept : contains m.id (recent s.snapshot_retention_keep_last dataset rows) ≡ true =
              recent-contains s.snapshot_retention_keep_last dataset rows m.id m
                (subst (λ x. first_where (snapshot_id x) rows ≡ some m) (sym mine) f) (eq_refl m.id)
                r l in
            let clash : contains m.id (recent s.snapshot_retention_keep_last d.id rows) ≡ true =
              subst (λ n. contains m.id (recent s.snapshot_retention_keep_last n rows) ≡ true) same
                kept in
            absurd (cc)
      ]

  expired_fewer :
      (c : Candidate) (dataset v : ℕ) (rows : List DatasetSnapshot)
      → count_where
          (upper dataset v)
          (update_where (snapshot_id c.snapshot_id) (expired_at c.now c.later) rows)
        ≤ count_where (upper dataset v) rows
  unfolding count_where update_where expired_at
  expired_fewer c dataset v [] = omega arith
  expired_fewer c dataset v (x ∷ xs) = elim (Bool-cases (str_eq x.id c.snapshot_id)) [
    | inl e ↦
        let gone : upper dataset v (expired_at c.now c.later x) ≡ false =
          elim (Bool-cases (x.dataset_id == dataset)) [ inl a ↦ rw a refl | inr a ↦ rw a refl ] in
        rw e (rw gone (omega (arith, expired_fewer c dataset v xs)))
    | inr e ↦ rw e (omega (arith, expired_fewer c dataset v xs))
  ]

  -- A turn leaves every row that is among the newest available and among them.
  expire-newest :
      (c : Candidate) (st : Storage)
      → IsSingle (snapshot_id c.snapshot_id) st.catalog.snapshots
      → count_where (strays c) st.catalog.snapshots ≡ 0
      → (dataset : ℕ) (id : String) (v : ℕ) → IsAmongNewest dataset id v st.catalog.snapshots
      → IsAmongNewest dataset id v (expire p s c st).1.catalog.snapshots
  unfolding expired_at
  expire-newest c st u z dataset id v (m, f, same, r, l) = elim (expire-cases c st) [
    | inl e ↦ rw e (m, f, same, r, l)
    | inr (inl e) ↦ rw e (seen-IsAmongNewest c st.catalog.snapshots dataset id v (m, f, same, r, l))
    | inr (inr (d, q, i, g, k, e)) ↦
        let rows = st.catalog.snapshots in
        let l' : count_where (upper dataset m.version) rows ≤ s.snapshot_retention_keep_last =
          subst (λ n. count_where (upper dataset n) rows ≤ s.snapshot_retention_keep_last)
            (sym same) l in
        let other = expired-other c st d m q dataset id u z i g k f r l' in
        let row =
          first_where-update_same (snapshot_id id) (snapshot_id c.snapshot_id)
            (expired_at c.now c.later) (λ x. refl) rows m f in
        rw e (m, rw other at row, same, r, omega (arith, l, expired_fewer c dataset v rows))
  ]

  after_ids :
      (c : Candidate) (st st' : Storage)
      → (expire p s c st).1 ≡ st'
      → ((id : String) → IsSingle (snapshot_id id) st.catalog.snapshots)
      → (id : String) → IsSingle (snapshot_id id) st'.catalog.snapshots
  unfolding seen_at expired_at
  after_ids c st st' e u id = omega (
    arith,
    u id,
    expire-same (snapshot_id id) (λ _ _. refl) (λ _ _ _. refl) c st,
    ap (λ z. count_where (snapshot_id id) z.catalog.snapshots) e,
  )

  after_strays :
      (c : Candidate) (st st' : Storage)
      → (expire p s c st).1 ≡ st'
      → (cs : List Candidate) → All (λ x. count_where (strays x) st.catalog.snapshots ≡ 0) cs
      → All (λ x. count_where (strays x) st'.catalog.snapshots ≡ 0) cs
  unfolding strays seen_at expired_at
  after_strays c st st' e [] h = tt
  after_strays c st st' e (x ∷ cs) h = (
    omega (
      arith,
      h.0,
      expire-same (strays x) (λ _ _. refl) (λ _ _ _. refl) c st,
      ap (λ z. count_where (strays x) z.catalog.snapshots) e,
    ),
    after_strays c st st' e cs h.1,
  )

  pub expire_each-newest :
      (cs : List Candidate) (n : ℕ) (st : Storage)
      → ((id : String) → IsSingle (snapshot_id id) st.catalog.snapshots)
      → All (λ c. count_where (strays c) st.catalog.snapshots ≡ 0) cs
      → (dataset : ℕ) (id : String) (v : ℕ) → IsAmongNewest dataset id v st.catalog.snapshots
      → IsAmongNewest dataset id v (expire_each p s cs n st).1.catalog.snapshots
  unfolding expire_each
  expire_each-newest [] n st u z dataset id v h = h
  expire_each-newest (c ∷ cs) n st u z dataset id v h =
      continued (expire p s c st) refl (λ k st' w y. expire_each-newest cs k st' w y dataset id v)
    where
      continued :
          (r : Result Bool × Storage)
          → expire p s c st ≡ r
          → ((k : ℕ) (st' : Storage)
              → ((id : String) → IsSingle (snapshot_id id) st'.catalog.snapshots)
              → All (λ x. count_where (strays x) st'.catalog.snapshots ≡ 0) cs
              → IsAmongNewest dataset id v st'.catalog.snapshots
              → IsAmongNewest dataset id v (expire_each p s cs k st').1.catalog.snapshots)
          → IsAmongNewest dataset id v (go_on r n (expire_each p s cs)).1.catalog.snapshots
      continued (err x, st') e again =
          subst (λ r. IsAmongNewest dataset id v r.1.catalog.snapshots) e
            (expire-newest c st (u c.snapshot_id) z.0 dataset id v h)
      continued (ok b, st') e again =
          again (counted b n) st' (after_ids c st st' (ap (λ r. r.1) e) u)
            (after_strays c st st' (ap (λ r. r.1) e) cs z.1)
            (subst (λ r. IsAmongNewest dataset id v r.1.catalog.snapshots) e
              (expire-newest c st (u c.snapshot_id) z.0 dataset id v h))
