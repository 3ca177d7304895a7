-- ===== src/Jobs/Queries.antt =====
-- The SQL statements (jobs/pg/batchsqlc/batch.sql.go), as functions on the two tables. A statement
-- with no ORDER BY yields the rows in the table's order; ORDER BY keeps that order between equal
-- lines.
mod Tests
mod Reads
mod Writes
pub use Tests.*
unfoldable pub use Reads.*
unfoldable pub use Writes.*
