-- ===== src/Models.antt =====
-- The shared records of scenara/platform/models.py, with all fields, defaults aside. A record is a
-- value: what the source copies by `model_copy(deep=True)` cannot be shared here.
mod Common
pub mod Media
pub mod Run
pub mod Webhook
pub mod Dataset
pub mod Retention
pub use Common.*
