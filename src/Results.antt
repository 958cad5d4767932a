-- ===== src/Results.antt =====
-- The documents of run results: the shards that `RunExecutionMixin._store_result` of
-- scenara/platform/services_execution.py writes, and those that `RunService.result` and
-- `RunService.result_page` of scenara/platform/services.py read, over `LocalObjectStore` of
-- scenara/infrastructure/object_store.py. A unit of a result is of any type `U`, and the bytes of a
-- document of any type `D`. `encode` and `decode` are JSON's, `sha` is SHA-256, `padded` is the
-- format `06d`. Keys and digests are taken as well formed.
pub mod Objects
pub mod Shards
pub mod Holds
pub mod Page
pub mod Written
pub mod Roundtrip
pub mod Examples
