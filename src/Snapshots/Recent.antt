-- ===== src/Snapshots/Recent.antt =====
-- Which snapshots `expire_history` finds among the newest of a dataset: those that no more than
-- `keep_last` available versions come up to.
use data_analytics_platform.Base.{
  ℕ, zero, suc, ◌≡◌, ◌≤◌, ◌<◌, refl, List, [], ◌∷◌, map, take, filter, String, Bool, true, false,
  ◌&&◌, some, str_eq, arith, inl, inr, Bool-cases, count_where, count_where-order_by, first_where,
  order_by, insert_by, leb, ltb, All, All-implies, All-insert_by,
}
use data_analytics_platform.Schema.Catalog.{DatasetSnapshot}
use data_analytics_platform.Snapshots.Expiry.{snapshot_id, retained, newer, id_of, contains, recent}

-- Later rows have no greater version.
abbrev IsDescending : List DatasetSnapshot → Type 0
IsDescending [] = Unit
IsDescending (y ∷ ys) = All (λ x. x.version ≤ y.version) ys × IsDescending ys

insert_by-IsDescending :
    (x : DatasetSnapshot) (ys : List DatasetSnapshot)
    → IsDescending ys
    → IsDescending (insert_by newer x ys)
unfolding insert_by
insert_by-IsDescending x [] h = (tt, tt)
insert_by-IsDescending x (y ∷ ys) h = elim (Bool-cases (ltb y.version x.version)) [
  | inl e ↦
      let above : y.version ≤ x.version = ground arith in
      rw e (
        (
          above,
          All-implies (λ z. z.version ≤ y.version) (λ z. z.version ≤ x.version) (λ z l. omega arith)
              ys h.0,
        ),
        h,
      )
  | inr e ↦
      let below : x.version ≤ y.version = ground arith in
      rw e (
        All-insert_by newer (λ z. z.version ≤ y.version) x ys below h.0,
        insert_by-IsDescending x ys h.1,
      )
]

order_by-IsDescending : (xs : List DatasetSnapshot) → IsDescending (order_by newer xs)
unfolding order_by
order_by-IsDescending [] = tt
order_by-IsDescending (x ∷ xs) =
    insert_by-IsDescending x (order_by newer xs) (order_by-IsDescending xs)

-- The rows of an id that come up to a version, among all that do.
reaches : String → ℕ → DatasetSnapshot → Bool
reaches id v x = str_eq x.id id && leb v x.version

count_where-reaches :
    (id : String) (v : ℕ) (ys : List DatasetSnapshot)
    → count_where (reaches id v) ys ≤ count_where (λ x. leb v x.version) ys
unfolding count_where reaches
count_where-reaches id v [] = omega arith
count_where-reaches id v (y ∷ ys) = ground (arith, count_where-reaches id v ys)

below_top :
    (v top : ℕ) (ys : List DatasetSnapshot)
    → All (λ x. x.version ≤ top) ys
    → top < v
    → count_where (λ x. leb v x.version) ys ≡ 0
unfolding count_where
below_top v top [] h l = refl
below_top v top (y ∷ ys) h l =
    let below = h.0 in
    let low : leb v y.version ≡ false = ground arith in
    rw low (omega (arith, below_top v top ys h.1 l))

take-contains :
    (id : String) (v n : ℕ) (ys : List DatasetSnapshot)
    → IsDescending ys
    → 1 ≤ count_where (reaches id v) ys
    → count_where (λ x. leb v x.version) ys ≤ n
    → contains id (map id_of (take n ys)) ≡ true
unfolding count_where reaches
take-contains id v n [] d h l = absurd (omega (arith, h))
take-contains id v zero (y ∷ ys) d h l =
    absurd (omega (arith, h, l, count_where-reaches id v (y ∷ ys)))
take-contains id v (suc n) (y ∷ ys) d h l = elim (Bool-cases (str_eq y.id id)) [
  | inl e ↦ rw e refl
  | inr e ↦ elim (Bool-cases (leb v y.version)) [
    | inl f ↦
        let h' : 1 ≤ count_where (reaches id v) ys = ground arith in
        let l' : count_where (λ x. leb v x.version) ys ≤ n = ground arith in
        rw e (take-contains id v n ys d.1 h' l')
    | inr f ↦
        let h' : 1 ≤ count_where (reaches id v) ys = ground arith in
        let below : y.version < v = ground arith in
        absurd (omega (arith, h', count_where-reaches id v ys, below_top v y.version ys d.0 below))
  ]
]

count_where-filter :
    (q p : DatasetSnapshot → Bool) (ms : List DatasetSnapshot)
    → count_where q (filter p ms) ≡ count_where (λ x. p x && q x) ms
unfolding count_where
count_where-filter q p [] = refl
count_where-filter q p (m ∷ ms) = ground (arith, count_where-filter q p ms)

first_counts :
    (p q : DatasetSnapshot → Bool) (ms : List DatasetSnapshot) (m : DatasetSnapshot)
    → first_where p ms ≡ some m
    → q m ≡ true
    → 1 ≤ count_where q ms
unfolding count_where first_where
first_counts p q [] m f h = absurd (cc)
first_counts p q (x ∷ ms) m f h = elim (Bool-cases (p x)) [
  | inl e ↦
      let same_row : x ≡ m = ground arith in
      let sat : q x ≡ true = rw same_row h in rw sat (omega arith)
  | inr e ↦ ground (arith, first_counts p q ms m)
]

-- An available version of a dataset up to which, itself included, no more than this number of its
-- available versions come.
abbrev pub upper : ℕ → ℕ → DatasetSnapshot → Bool
upper dataset v x = retained dataset x && leb v x.version

-- Such a row is among the newest.
pub recent-contains :
    (keep dataset : ℕ) (rows : List DatasetSnapshot) (id : String) (m : DatasetSnapshot)
    → first_where (snapshot_id id) rows ≡ some m
    → str_eq m.id id ≡ true
    → retained dataset m ≡ true
    → count_where (upper dataset m.version) rows ≤ keep
    → contains id (recent keep dataset rows) ≡ true
unfolding recent reaches
recent-contains keep dataset rows id m f i r l =
    let kept = filter (retained dataset) rows in
    let v = m.version in
    let own : retained dataset m && reaches id v m ≡ true = ground arith in
    take-contains id v keep (order_by newer kept) (order_by-IsDescending kept)
      (omega (
        arith,
        count_where-order_by newer (reaches id v) kept,
        count_where-filter (reaches id v) (retained dataset) rows,
        first_counts (snapshot_id id) (λ x. retained dataset x && reaches id v x) rows m f own,
      ))
      (omega (
        arith,
        l,
        count_where-order_by newer (λ x. leb v x.version) kept,
        count_where-filter (λ x. leb v x.version) (retained dataset) rows,
      ))
