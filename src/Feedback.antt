-- ===== src/Feedback.antt =====
-- Feedback on results and the releases of models: scenara/platform/feedback.py.
pub mod Models
pub mod Correction
pub mod Repository
pub mod Active
pub mod Evidence
pub mod Guards
pub mod Service
pub mod Automatic
pub mod Qualified
pub mod Guarded
pub mod Activation
pub mod Answers
pub mod Reach
pub mod Manifest
pub mod Review
pub mod Bindings
pub mod Examples
