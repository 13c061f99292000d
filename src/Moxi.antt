-- ===== src/Moxi.antt =====
-- The web client of the preorders: MoXi/src.
pub mod Checkout
pub mod Draft
