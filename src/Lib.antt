-- ===== src/Lib.antt =====
-- The platform kernel of Scenara: the state that its services share, and the rules under which that
-- state changes.
--
-- Parts of the program, and how they interact
--
-- The services of scenara/platform (parsing runs, media, datasets, webhooks, retention, audit) keep
-- no state of their own. They call a `StateStore`, the protocol of scenara/platform/store.py, of
-- which scenara/infrastructure/memory_state.py is the backend in memory. Portrait surveillance
-- keeps watchlists, tasks and alerts in a `SurveillanceRepository` of
-- scenara/platform/surveillance.py, of which scenara/infrastructure/memory_surveillance.py is the
-- backend in memory. Workers claim webhook deliveries from the store, send them, and save the
-- outcome. Every method of both backends holds one asyncio lock from its start to its end, so a
-- method is one step; the interleavings of several workers are the sequences of these steps, which
-- the theorems quantify over.
--
-- Which file models which part
--
-- Models and its children: the records of scenara/platform/models.py and `AuditEvent` of
--   scenara/platform/audit.py, with the source's field names.
-- Pipeline/Definition: `OperatorDefinition` to `PipelineDefinition` of scenara/platform/pipeline.py,
--   with what the digest of a definition covers.
-- Pipeline/Graph, Pipeline/Registry: `PipelineRegistry` of the same file, less `execute`: its
--   registrations, the transitions of a version, and `_validate`, of which Graph holds the loops that
--   link the nodes and the loop over the queue. Pipeline/Linked is about the first of these loops,
--   Pipeline/Topology and Pipeline/Visits about the loop over the queue, Pipeline/Counts about lists.
-- Store: the tables of `MemoryStateStore`, and how a method ends (`Reply`). A method `m` of the class
--   is the function `m` from the store to the new store and a reply, or to a value where it only
--   reads; its keyword arguments are arguments in the source's order.
-- Store/Runs, Store/Events: runs, idempotency keys and event logs. Store/Webhooks: subscriptions and
--   the outbox. Store/Media, Store/Datasets, Store/Audit, Store/Pipelines, Store/Retention: the
--   tables that their names say. What is proved of a part stands in the part's children, what is
--   proved of the tables of runs together in Store/Invariant, and of calls in a row in Store/Reach.
-- Surveillance/Models, Surveillance/Schedule: the records, `active_at`, `valid_period` and the
--   schedule of scenara/platform/surveillance.py. Surveillance/Repository, Surveillance/Alerts:
--   `MemorySurveillanceRepository`, with `record_alert`, `triage_alert` and the event log.
-- Policy: `require_allowed` of scenara/platform/policy.py, with a provider as a function to a
--   decision: one that raises, as `DenyUnavailablePolicyProvider` does, is not expressed.
-- Feedback/Models, Feedback/Repository: the records and `MemoryFeedbackRepository` of
--   scenara/platform/feedback.py. Feedback/Evidence, Feedback/Guards, Feedback/Service: the releases
--   of `FeedbackService`, with what it reads and refuses before it acts (`check_transition`,
--   `check_rollback`) and what it then does (`carry_out`, for a transition and a rollback);
--   Feedback/Automatic is the automatic rollback.
--   Feedback/Correction, Feedback/Review, Feedback/Manifest: the review of feedback and the export
--   of hard samples. Feedback/Bindings: the runtime bindings. Feedback/Active, Feedback/Guarded,
--   Feedback/Activation, Feedback/Qualified and Feedback/Reach are about these. Feedback/Answers:
--   how a call of the service ends, and chains of calls.
-- ControlPlane: `MemoryControlPlaneStore` of scenara/platform/control_plane_store.py.
-- Retention: `RetentionPolicy` and `RetentionScheduler` of scenara/platform/retention.py, with
--   `delete` of the two stores of scenara/infrastructure/object_store.py.
-- Results/Objects, Results/Shards: `put` and `get` of `LocalObjectStore`, the loops of
--   `RunExecutionMixin._store_result` of scenara/platform/services_execution.py that write the shards
--   of a result, and `RunService.result` and `result_page` of scenara/platform/services.py that read
--   them. Results/Holds says what it is for the files to hold a result.
-- Prelude: dicts as association lists in the order of insertion, sorting by a strict order, pages,
--   Boolean tests, decimal numerals.
-- The modules called Examples: concrete inputs.
--
-- How values are modelled
--
-- A dict is an association list: an insertion under a key that is present overwrites in place, a
-- new key goes to the end, as Python's dict does. A frozen or deep-copied record is a value. A
-- timestamp or a score is a float that the code stores, compares or takes the larger of: it stands
-- for its place in the order of the floats. Where the code adds seconds to a time (the window of a
-- quota), times are whole seconds. `StateConflict`, `ValueError` and `KeyError` are values of
-- `Reply`. Code that is not the repository's is a parameter: SHA-256 over canonical JSON (`hash`),
-- pydantic's dump of an event (`dump`), the identifiers of uuid4 (`uuid`), `str` of a JSON value
-- (`str`), the search in the JSON text of a result (`mentions`), `re.fullmatch` (`fullmatch`), the
-- wall clock of a time zone (`Calendar`), `str.lower` (`lower`), JSON with its digest and the
-- format `06d` (`encode`, `decode`, `sha`, `padded`), `float` and `int` of a value (`number`,
-- `value`), the addition of days to a time (`plus_days`), and what the feedback service asks of the
-- catalogue, of the policy provider and of the object store (the record `Environment`).
--
-- Bounds and fuel
--
-- Loops over rows are recursions on the list of rows. The decimal text of a number n is computed on
-- fuel n + 1, which is above its number of digits. The loop over the queue of a pipeline's nodes is
-- computed on fuel n + 1 for n nodes: on a graph that the first loop has linked it takes no node
-- twice, so it ends by itself. The writing of shards is computed on fuel that is the number of
-- units: a shard takes at least one unit.
--
-- What is not modelled
--
-- The tables of model packages (`register_model_package`, `list_model_packages`), the PostgreSQL,
-- Qdrant and S3 backends (but for the answer of `S3ObjectStore.delete`), the HTTP routers, the
-- services that are not named above, `create` and `admit_package` of the feedback service, the
-- index document of a result and the clean-up after a failed store of one, the execution of
-- operators, inference and media decoding, training, and the user interface.
-- Pydantic's validation of fields on input is left to the callers: records are taken as validated.
pub mod Prelude
pub mod Models
pub mod Pipeline
pub mod Store
pub mod Surveillance
pub mod Policy
pub mod Feedback
pub mod ControlPlane
pub mod Retention
pub mod Results
