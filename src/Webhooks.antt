-- ===== src/Webhooks.antt =====
-- app/webhooks: what arrives from outside.
pub mod Yookassa
