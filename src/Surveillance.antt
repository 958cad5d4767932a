-- ===== src/Surveillance.antt =====
-- Portrait surveillance: the records of scenara/platform/surveillance.py and the repository of
-- scenara/infrastructure/memory_surveillance.py.
pub mod Models
pub mod Schedule
pub mod Repository
pub mod Alerts
pub mod Examples
