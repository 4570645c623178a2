-- ===== src/Outbox.antt =====
-- internal/store/store.go: a row of the webhook outbox.
use ai_cloudhub.Common.{ℕ}
use ai_cloudhub.Text.{Text}

pub data Delivery : Type 0 where
  pending delivered dead : Delivery

pub record Outbox : Type 0 where
  pub id : Text
  pub job_id : Text
  pub user_id : Text
  pub event : Text
  pub payload_json : Text
  pub status : Delivery
  pub attempts : ℕ
  pub next_attempt_at : ℕ
  pub last_error : Text
  pub created_at : ℕ
  pub updated_at : ℕ
  pub delivered_at : ℕ
