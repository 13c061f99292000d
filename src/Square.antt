-- ===== src/Square.antt =====
-- The two services that speak to Square: square-payment-delivery charges and refunds, and
-- square-payment-acquisition retrieves payments and authenticates webhooks.
pub mod Types
pub mod Delivery
pub mod Refund
pub mod Retrieval
pub mod Reconciliation
pub mod Webhook
pub mod WebhookEvidence
