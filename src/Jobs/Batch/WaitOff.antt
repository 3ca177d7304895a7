-- ===== src/Jobs/Batch/WaitOff.antt =====
-- What `wait_off` does to the tables, and what it leaves when it fails half-way.
use alya.Prelude.{ℕ, ◌+◌, true, false, some, String, ◌≡◌, ◌⊎◌, arith}
use alya.Jobs.Status.{wait, queued}
use alya.Jobs.Db.{Batch}
use alya.Jobs.Queries.{get_batch_by_id, get_batch_rows_count}
use alya.Jobs.Machine.{Env, World, ok, err, db_error, machine}
use alya.Jobs.Batch.{wait_off, release_waiting, release}

module _ (env : Env) where
  -- A successful call names the batch and counts its rows. A queued batch stays as it was, and a
  -- waiting one is released.
  pub wait_off_ok :
      (batch_id : String) (i : ℕ) (b : Batch) (w : World) (r : String × ℕ)
      → env.parse_uuid batch_id ≡ some i
      → get_batch_by_id i w.db ≡ some b
      → (wait_off env batch_id w).0 ≡ ok r
      → let d = (wait_off env batch_id w).1.db in
        (r ≡ (batch_id, get_batch_rows_count i d))
        × (((b.status ≡ queued) × (d ≡ w.db)) ⊎ ((b.status ≡ wait) × (d ≡ release i w.db)))
  unfolding wait_off release_waiting machine
  wait_off_ok batch_id i b w r hp hb h = (ground arith, ground arith)

  -- If the count that follows the update fails, the call fails and the batch is released all the
  -- same: the update went through the pool, and the deferred rollback does not undo it.
  pub wait_off_not_rolled_back :
      (batch_id : String) (i : ℕ) (b : Batch) (w : World)
      → env.parse_uuid batch_id ≡ some i
      → get_batch_by_id i w.db ≡ some b
      → b.status ≡ wait
      → env.fails w.calls ≡ false
      → env.fails (w.calls + 1) ≡ false
      → env.fails (w.calls + 2) ≡ false
      → env.fails (w.calls + 3) ≡ true
      → ((wait_off env batch_id w).0 ≡ err db_error)
        × ((wait_off env batch_id w).1.db ≡ release i w.db)
  unfolding wait_off release_waiting machine
  wait_off_not_rolled_back batch_id i b w hp hb hs f0 f1 f2 f3 = (ground arith, ground arith)
