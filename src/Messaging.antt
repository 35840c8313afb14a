-- ===== src/Messaging.antt =====
-- app/infrastructure/messaging: the envelope, the outbox and the consumers.
pub mod Envelope
pub mod Outbox
pub mod Consumers
pub mod Delivery
pub mod Progress
pub mod Registered
pub mod Abuse
pub mod Runner
