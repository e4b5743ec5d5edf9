-- ===== src/Schema/Outbox.antt =====
-- backend/app/models/task_outbox.py
use data_analytics_platform.Base.{ℕ, String, Bool, true, false, Option, List}
use data_analytics_platform.Schema.Jobs.{JobKind}
use data_analytics_platform.Schema.Json.{Json}

pub data OutboxStatus : Type 0 where
  pending dispatching published cancelled : OutboxStatus

-- `payload_json`: the task's arguments and its correlation id.
pub record Payload : Type 0 where
  pub args : List Json
  pub correlation_id : String

pub record TaskOutbox : Type 0 where
  pub id : ℕ
  pub task_id : String
  pub kind : JobKind
  pub payload : Payload
  pub status : OutboxStatus
  pub attempts : ℕ
  pub generation : ℕ
  pub claim_token : Option String
  pub available_at : ℕ
  pub claimed_at : Option ℕ
  pub published_at : Option ℕ
  pub last_error : Option String
  pub created_at : ℕ
  pub updated_at : ℕ

abbrev pub is_pending : OutboxStatus → Bool
is_pending pending = true
is_pending _ = false

abbrev pub is_dispatching : OutboxStatus → Bool
is_dispatching dispatching = true
is_dispatching _ = false

abbrev pub is_published : OutboxStatus → Bool
is_published published = true
is_published _ = false

abbrev pub is_cancelled : OutboxStatus → Bool
is_cancelled cancelled = true
is_cancelled _ = false
