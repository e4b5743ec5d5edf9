-- ===== src/System/Expired.antt =====
-- Which rows a run of `remove_expired_job_history` takes.
use data_analytics_platform.Base.{
  ℕ, ◌≡◌, ◌≤◌, inl, inr, String, Bool, true, not, ◌&&◌, some, List, [], ◌∷◌, arith, ap, subst, min,
  max, map, take, filter, order_by, All, All-implies, All-take, All-order_by, str_eq, eq_iff,
  eq_refl, Bool-cases, count_where, count_where_keyed, first_where,
}
use data_analytics_platform.Schema.Jobs.{JobRecord}
use data_analytics_platform.Jobs.Admission.{is_task}
use data_analytics_platform.System.Maintenance.{
  is_expired, finished_first, task_of, has_task, expired_ids,
}

kept_counts :
    (cutoff : ℕ) (skips : JobRecord → Bool) (rows : List JobRecord)
    → All
        (λ x. 1 ≤ count_where (λ r. is_task x.task_id r && is_expired cutoff r) rows)
        (filter (λ r. is_expired cutoff r && not (skips r)) rows)
unfolding count_where
kept_counts cutoff skips [] = tt
kept_counts cutoff skips (y ∷ ys) =
    let rest =
      All-implies (λ x. 1 ≤ count_where (λ r. is_task x.task_id r && is_expired cutoff r) ys)
        (λ x. 1 ≤ count_where (λ r. is_task x.task_id r && is_expired cutoff r) (y ∷ ys))
        (λ x l. omega (arith, l)) (filter (λ r. is_expired cutoff r && not (skips r)) ys)
        (kept_counts cutoff skips ys) in
    elim (Bool-cases (is_expired cutoff y && not (skips y))) [
      | inl e ↦
          let old : is_expired cutoff y ≡ true = ground arith in
          rw e ((rw (eq_refl y.task_id) (rw old (omega arith)), rest))
      | inr e ↦ rw e rest
    ]

has_task-counts :
    (cutoff : ℕ) (task : String) (rows zs : List JobRecord)
    → All (λ x. 1 ≤ count_where (λ r. is_task x.task_id r && is_expired cutoff r) rows) zs
    → has_task task (map task_of zs) ≡ true
    → 1 ≤ count_where (λ r. is_task task r && is_expired cutoff r) rows
has_task-counts cutoff task rows [] a h = absurd (cc)
has_task-counts cutoff task rows (z ∷ zs) a h = elim (Bool-cases (str_eq z.task_id task)) [
  | inl e ↦
      subst (λ t. 1 ≤ count_where (λ r. is_task t r && is_expired cutoff r) rows)
        ((eq_iff z.task_id task).0 e) a.0
  | inr e ↦ has_task-counts cutoff task rows zs a.1 (rw e at h)
]

-- A run of the retention takes no job that has not ended before the cutoff.
pub expired_ids-expired :
    (skips : JobRecord → Bool) (earlier : String → String → Bool) (batch cutoff : ℕ) (task : String)
    (rows : List JobRecord) (q : JobRecord)
    → count_where (is_task task) rows ≤ 1
    → first_where (is_task task) rows ≡ some q
    → has_task task (expired_ids skips earlier batch cutoff rows) ≡ true
    → is_expired cutoff q ≡ true
unfolding expired_ids
expired_ids-expired skips earlier batch cutoff task rows q k f h =
    let P =
      λ (x : JobRecord). 1 ≤ count_where (λ r. is_task x.task_id r && is_expired cutoff r) rows in
    let old = filter (λ r. is_expired cutoff r && not (skips r)) rows in
    let taken =
      All-take P (min (max batch 1) 10000) (order_by (finished_first earlier) old)
        (All-order_by (finished_first earlier) P old (kept_counts cutoff skips rows)) in
    let some_row =
      has_task-counts cutoff task rows
        (take (min (max batch 1) 10000) (order_by (finished_first earlier) old)) taken h in
    elim (Bool-cases (is_expired cutoff q)) [
      | inl e ↦ e
      | inr e ↦
          let one = rw e at (count_where_keyed (is_task task) (is_expired cutoff) rows q k f) in
          absurd (omega (arith, some_row, one))
    ]

pub first_where-filter :
    (p keep : JobRecord → Bool) (rows : List JobRecord) (r : JobRecord)
    → first_where p rows ≡ some r
    → keep r ≡ true
    → first_where p (filter keep rows) ≡ some r
unfolding first_where
first_where-filter p keep [] r f h = absurd (cc)
first_where-filter p keep (x ∷ xs) r f h = elim (Bool-cases (p x)) [
  | inl e ↦
      let same_row : x ≡ r = ground arith in
      let kept : keep x ≡ true = rw same_row h in rw kept (rw e (ap some same_row))
  | inr e ↦ ground (arith, first_where-filter p keep xs r)
]

pub count_where-filter_le :
    (p keep : JobRecord → Bool) (rows : List JobRecord)
    → count_where p (filter keep rows) ≤ count_where p rows
unfolding count_where
count_where-filter_le p keep [] = omega arith
count_where-filter_le p keep (x ∷ xs) = ground (arith, count_where-filter_le p keep xs)
