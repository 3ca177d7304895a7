-- ===== src/Jobs/Status.antt =====
-- The states of a batch and of a row (jobs/pg/batchsqlc/models.go), and the states that the service
-- reports to its callers (jobs/slowquery.go, jobs/batch.go).
use alya.Prelude.{Bool, true, false}

-- `StatusEnum`; a column of this type holds no other string.
pub data StatusEnum : Type 0 where
  queued inprog success failed aborted wait : StatusEnum

-- `BatchStatus_t`
pub data BatchStatus : Type 0 where
  try_later batch_success batch_failed batch_aborted batch_wait batch_queued : BatchStatus
  batch_in_progress : BatchStatus

unfoldable pub map_status_enum : StatusEnum → BatchStatus
map_status_enum wait = batch_wait
map_status_enum queued = batch_queued
map_status_enum inprog = batch_in_progress
map_status_enum success = batch_success
map_status_enum failed = batch_failed
map_status_enum aborted = batch_aborted

-- The status that a slow query's caller is told.
unfoldable pub get_batch_status : StatusEnum → BatchStatus
get_batch_status success = batch_success
get_batch_status failed = batch_failed
get_batch_status aborted = batch_aborted
get_batch_status _ = try_later

abbrev pub status_eq : StatusEnum → StatusEnum → Bool
status_eq queued queued = true
status_eq inprog inprog = true
status_eq success success = true
status_eq failed failed = true
status_eq aborted aborted = true
status_eq wait wait = true
status_eq _ _ = false

-- The test that the callers write out: aborted, success or failed.
abbrev pub is_final : StatusEnum → Bool
is_final aborted = true
is_final success = true
is_final failed = true
is_final _ = false

-- `status IN ('queued', 'inprog')`
abbrev pub is_pending : StatusEnum → Bool
is_pending queued = true
is_pending inprog = true
is_pending _ = false

-- `status IN ('success', 'failed')`
abbrev pub is_processed : StatusEnum → Bool
is_processed success = true
is_processed failed = true
is_processed _ = false
