-- ===== src/Outbox.antt =====
-- packages/outbox/src: the message, the in-process store, and the relay that publishes.
pub mod Store
pub mod Relay
pub mod Slots
use btravstack.Common.{ℕ, String, Option}

pub record OutboxMessage : Type 0 where
  pub id : ℕ
  pub tenant_id : String
  pub kind : String
  pub subject_id : String
  pub payload : Option String
  pub occurred_at : ℕ
