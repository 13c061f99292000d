-- ===== src/Preorder.antt =====
-- The public functions of preorder-operations (MoMi/services/preorder-operations/functions): what
-- they let in, and what they answer.
pub mod Http
pub mod Requests
pub mod Checkout
pub mod PaymentService
pub mod SquareWebhook
pub mod Quote
pub mod Contribution
pub mod OrderStatus
