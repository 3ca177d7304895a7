-- ===== src/Jobs/Queries/Tests.antt =====
-- The tests that the statements' WHERE clauses share.
use alya.Prelude.{ℕ, List, Bool, ◌&&◌, ◌==◌, contains}
use alya.Jobs.Status.{is_pending}
use alya.Jobs.Db.{Batch, BatchRow}

abbrev pub has_id : ℕ → Batch → Bool
has_id i b = b.id == i

abbrev pub in_batch : ℕ → BatchRow → Bool
in_batch i r = r.batch == i

-- `rowid = ANY(rowids)`
abbrev pub row_in : List ℕ → BatchRow → Bool
row_in rowids r = contains r.rowid rowids

abbrev pub is_pending_in : ℕ → BatchRow → Bool
is_pending_in i r = (r.batch == i) && is_pending r.status
