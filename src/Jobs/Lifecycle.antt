-- ===== src/Jobs/Lifecycle.antt =====
-- What one job row may do, stated without the code: the diagram of its status, its attempt budget,
-- and which columns go with which status. `Changes` has one lemma for each change the code makes.
pub mod Changes
pub mod Operations
use data_analytics_platform.Base.{
  ℕ, ◌+◌, ◌≤◌, ◌<◌, ◌≡◌, refl, ◌⊎◌, inl, Bool, true, false, is_none, arith,
}
use data_analytics_platform.Schema.Jobs.{
  JobStatus, JobRecord, is_pending, is_started, is_success, is_terminal, pending, started, success,
  failure, cancellation_requested, cancelled,
}

-- The diagram. Success, failure and cancellation have no way out, and a cancellation request leads
-- to cancellation alone.
abbrev pub may_become : JobStatus → JobStatus → Bool
may_become pending success = false
may_become pending _ = true
may_become started _ = true
may_become cancellation_requested cancellation_requested = true
may_become cancellation_requested cancelled = true
may_become cancellation_requested _ = false
may_become success success = true
may_become success _ = false
may_become failure failure = true
may_become failure _ = false
may_become cancelled cancelled = true
may_become cancelled _ = false

-- The columns that a row in each status has.
pub record IsShaped (r : JobRecord) : Type 0 where
  pub waiting :
      is_pending r.status ≡ true
      → (is_none r.lease_expires_at ≡ true) × (is_none r.attempt_token ≡ true)
  pub running :
      is_started r.status ≡ true
      → (is_none r.lease_expires_at ≡ false)
        × (is_none r.attempt_token ≡ false)
        × (1 ≤ r.attempt_count)
  pub ended :
      is_terminal r.status ≡ true
      → (is_none r.lease_expires_at ≡ true) × (is_none r.finished_at ≡ false)
  pub succeeded : is_success r.status ≡ true → (r.progress ≡ 100) × (is_none r.result_json ≡ false)
  pub budget : r.attempt_count ≤ r.max_attempts

-- A finished outcome, which no later operation rewrites.
abbrev pub is_settled : JobStatus → Bool
is_settled success = true
is_settled failure = true
is_settled _ = false

pub record Lawful (r s : JobRecord) : Type 0 where
  pub same_task : s.task_id ≡ r.task_id
  pub same_owner : s.owner_id ≡ r.owner_id
  pub same_budget : s.max_attempts ≡ r.max_attempts
  pub edge : may_become r.status s.status ≡ true
  pub counted :
      (s.attempt_count ≡ r.attempt_count)
      ⊎ ((s.attempt_count ≡ r.attempt_count + 1) × (r.attempt_count < r.max_attempts))
  pub settled : is_settled r.status ≡ true → s ≡ r
  pub shaped : IsShaped r → IsShaped s

may_become_refl : (s : JobStatus) → may_become s s ≡ true
may_become_refl pending = refl
may_become_refl _ = refl

pub Lawful-refl : (r : JobRecord) → Lawful r r
Lawful-refl r = record {
  same_task = refl;
  same_owner = refl;
  same_budget = refl;
  edge = may_become_refl r.status;
  counted = inl refl;
  settled = λ _. refl;
  shaped = λ h. h;
}
