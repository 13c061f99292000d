-- ===== src/Payment.antt =====
-- The payment path of the preorder service (MoMi/services/preorder-operations): the checks of what
-- the database and the provider return, and the two orchestrations that charge and reconcile.
pub mod Claim
pub mod Evidence
pub mod Initiate
pub mod Reconcile
