-- ===== src/Services.antt =====
-- app/services: the composition roots, which wire the tables, the tools and the virtual machine.
pub mod Order
pub mod Idempotency
pub mod Payment
pub mod Kitchen
pub mod Dispatch
pub mod WebappAuth
pub mod Menu
