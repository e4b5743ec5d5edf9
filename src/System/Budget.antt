-- ===== src/System/Budget.antt =====
-- The attempt budget: how often any history can hand a job to a worker.
use data_analytics_platform.Base.{
  ℕ, ◌+◌, ◌≡◌, ◌≤◌, ◌⊎◌, inl, inr, refl, String, Bool, true, false, some, List, [], ◌∷◌, arith, sym,
  subst, ◌∙◌, str_eq, eq_iff, if◌then◌else◌, Bool-cases, All, first_where,
}
use data_analytics_platform.Schema.{Database, Settings, Result, ok, err}
use data_analytics_platform.Schema.Jobs.{JobRecord}
use data_analytics_platform.Jobs.Clock.{Clock}
use data_analytics_platform.Jobs.Admission.{is_task}
use data_analytics_platform.Jobs.Worker.{get, acquired, token_rejected}
use data_analytics_platform.Jobs.Worker
use data_analytics_platform.Jobs.Keys.{IsKeyed}
use data_analytics_platform.Jobs.Acquisition.{start-true}
use data_analytics_platform.Jobs.Lifecycle.{IsShaped}
use data_analytics_platform.System.{Call, start, step, run}
use data_analytics_platform.System.History.{Inv, step-Inv, run-Inv}
use data_analytics_platform.System.Progress.{step-Continues}

-- One for an answer of `start` that hands the job over.
abbrev pub handed : Result (JobRecord × Bool) → ℕ
handed (ok (_, true)) = 1
handed (ok (_, false)) = 0
handed (err _) = 0

abbrev pub handed_to : String → Call → Database → ℕ
handed_to task (start t token percent stage seconds c) db =
    if str_eq t task then handed (Worker.start t token percent stage seconds c db).0 else 0
handed_to task _ db = 0

-- How many calls of the history hand the task's job to a worker.
abbrev pub acquisitions : Settings → String → List Call → Database → ℕ
acquisitions s task [] db = 0
acquisitions s task (c ∷ cs) db = handed_to task c db + acquisitions s task cs (step s c db)

handed-true :
    (result : Result (JobRecord × Bool))
    → (handed result ≡ 0) ⊎ ((j : JobRecord) × (result ≡ ok (j, true)) × (handed result ≡ 1))
handed-true (ok (j, true)) = inr (j, refl, refl)
handed-true (ok (j, false)) = inl refl
handed-true (err e) = inl refl

start-rejected :
    (task token : String) (percent : ℕ) (stage : String) (seconds : ℕ) (c : Clock) (db : Database)
    → token_rejected token ≡ true
    → handed (Worker.start task token percent stage seconds c db).0 ≡ 0
unfolding Worker.start
start-rejected task token percent stage seconds c db h = rw h

start-handed :
    (task token : String) (percent : ℕ) (stage : String) (seconds : ℕ) (c : Clock) (db : Database)
    (r q : JobRecord)
    → IsKeyed db
    → get db task ≡ some r
    → get (Worker.start task token percent stage seconds c db).1 task ≡ some q
    → r.attempt_count ≤ q.attempt_count
    → handed (Worker.start task token percent stage seconds c db).0 + r.attempt_count
      ≤ q.attempt_count
unfolding acquired
start-handed task token percent stage seconds c db r q k h f le =
    elim (Bool-cases (token_rejected token)) [
      | inl bad ↦ omega (arith, start-rejected task token percent stage seconds c db bad)
      | inr good ↦ elim (handed-true (Worker.start task token percent stage seconds c db).0) [
        | inl z ↦ omega arith
        | inr (j, e, one) ↦
            let (r', g, _, same, row) =
              start-true task token percent stage seconds c good db j k e in
            ground arith
      ]
    ]

step-counted :
    (s : Settings) (task : String) (c : Call) (db : Database) (r q : JobRecord)
    → IsKeyed db
    → get db task ≡ some r
    → get (step s c db) task ≡ some q
    → r.attempt_count ≤ q.attempt_count
    → handed_to task c db + r.attempt_count ≤ q.attempt_count
unfolding step
step-counted s task (start t token percent stage seconds c) db r q k h f le =
    elim (Bool-cases (str_eq t task)) [
      | inl e ↦
          let same = sym ((eq_iff t task).0 e) in
          rw e (
            start-handed t token percent stage seconds c db r q k
              (subst (λ u. get db u ≡ some r) same h)
              (subst (λ u. get (Worker.start t token percent stage seconds c db).1 u ≡ some q) same
                f)
              le)
      | inr e ↦ rw e (omega arith)
    ]
step-counted s task _ db r q k h f le = omega arith

acquisitions-le :
    (s : Settings) (task : String) (cs : List Call) (db : Database) (r : JobRecord)
    → Inv s db
    → get db task ≡ some r
    → (q : JobRecord) × (get (run s cs db) task ≡ some q)
      × (q.max_attempts ≡ r.max_attempts)
      × (acquisitions s task cs db + r.attempt_count ≤ q.attempt_count)
unfolding run
acquisitions-le s task [] db r v h = (r, h, refl, omega arith)
acquisitions-le s task (c ∷ cs) db r v h =
    let (p, f, l) = step-Continues s c db task r v h in
    let (q, g, m, n) = acquisitions-le s task cs (step s c db) p (step-Inv s c db v) f in
    let first = step-counted s task c db r p v.keyed h f l.counted in
    (q, g, m ∙ l.same_budget, omega (arith, first, n))

All-first_where :
    (p : JobRecord → Bool) (rs : List JobRecord) (r : JobRecord)
    → All IsShaped rs
    → first_where p rs ≡ some r
    → IsShaped r
unfolding first_where
All-first_where p [] r h e = absurd (cc)
All-first_where p (x ∷ rs) r h e = elim (Bool-cases (p x)) [
  | inl t ↦ let same : x ≡ r = ground arith in subst IsShaped same h.0
  | inr t ↦ All-first_where p rs r h.1 (ground arith)
]

-- In any history of calls, `start` hands a job out at most as often as its attempts were left.
pub acquisitions_bounded :
    (s : Settings) (task : String) (cs : List Call) (db : Database) (r : JobRecord)
    → Inv s db
    → get db task ≡ some r
    → acquisitions s task cs db + r.attempt_count ≤ r.max_attempts
unfolding get
acquisitions_bounded s task cs db r v h =
    let (q, g, m, n) = acquisitions-le s task cs db r v h in
    let shaped = All-first_where (is_task task) (run s cs db).jobs q (run-Inv s cs db v).shaped g in
    omega (arith, shaped.budget, m, n)
