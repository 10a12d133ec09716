-- ===== src/Shared.antt =====
-- app/shared: what the other parts use.
pub mod Store
pub mod Usage
