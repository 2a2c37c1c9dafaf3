-- ===== src/Outbox/Message.antt =====
-- The tables `outbox_messages` and `processed_outbox_messages`, and the domain message.
use starter_template_fastapi.Base.{ℕ, String, Option, List}
use starter_template_fastapi.Base.Json.{Fields}

-- The text column `status` holds one of these: no statement of the program writes another value.
pub data OutboxStatus : Type 0 where
  pending delivered failed : OutboxStatus

-- `OutboxMessageTable`. A UUID is the number that its 128 bits write.
pub record Row : Type 0 where
  pub id : ℕ
  pub job_name : String
  pub payload : Fields
  pub trace_context : Fields
  pub available_at : ℕ
  pub status : OutboxStatus
  pub attempts : ℕ
  pub last_error : Option String
  pub locked_at : Option ℕ
  pub locked_by : Option String
  pub created_at : ℕ
  pub delivered_at : Option ℕ
  pub failed_at : Option ℕ

-- `OutboxMessage`
pub record Message : Type 0 where
  pub id : ℕ
  pub job_name : String
  pub payload : Fields
  pub available_at : ℕ
  pub status : OutboxStatus
  pub attempts : ℕ
  pub last_error : Option String
  pub locked_at : Option ℕ
  pub locked_by : Option String
  pub created_at : ℕ
  pub delivered_at : Option ℕ
  pub trace_context : Fields

-- `ProcessedOutboxMessageTable`
pub record Mark : Type 0 where
  pub id : ℕ
  pub processed_at : ℕ

-- The two tables of the outbox.
pub record Db : Type 0 where
  pub messages : List Row
  pub processed : List Mark
