-- ===== src/Jobs.antt =====
-- The batch processing service (jobs/).
pub mod Status
pub mod Types
pub mod Db
pub mod Queries
pub mod Tables
pub mod Rows
pub mod Machine
pub mod Cache
pub mod Batch
pub mod Summary
pub mod Completed
pub mod Fixture
pub mod FileXfr
pub mod Recovery
pub mod Worker
pub mod Registry
pub mod SlowQuery
pub mod BatchStatus
pub mod Service
pub mod SlowQueryDone
pub mod BatchDone
