-- ===== src/Store.antt =====
-- The store's nodes, their tokens, and the queue of history samples: internal/store.
pub mod Queue
pub mod QueueLaws
pub mod Registry
pub mod RegistryLaws
pub mod Deletion
pub mod Registration
pub mod Points
pub mod PointsLaws
pub mod Ingest
pub mod IngestLaws
