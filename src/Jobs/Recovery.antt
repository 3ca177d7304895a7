-- ===== src/Jobs/Recovery.antt =====
-- How the rows of a worker that died are found and queued again (jobs/recovery.go), for a manager
-- that has a Redis client and a database.
pub mod Resets
mod Dead
mod Tests
use alya.Prelude.{
  ℕ, ◌+◌, List, [], ◌∷◌, Option, some, none, String, Bool, length, str_eq, if◌then◌else◌,
}
use alya.Jobs.Queries.{reset_rows_to_queued}
use alya.Jobs.Machine.{
  Env, World, M, ◌>>=◌, ◌>>◌, pure, with_rollback, log_error, begin, commit, tx_exec, redis_set,
  smembers, sadd, srem, key_exists, del, call, redis_error, ok, err, rows_key, heartbeat_key,
  registry_key,
}
use alya.Jobs.Batch.{is_nil}

-- `heartbeatTTL` in seconds.
abbrev heartbeat_ttl : ℕ
heartbeat_ttl = 60

-- The error of one instance is logged, and it counts for no row.
unfoldable pub or_zero : M ℕ → M ℕ
or_zero m w = let (r, w') = m w in elim r [ ok n ↦ (ok n, w') | err e ↦ (ok 0, w') ]

module _ (env : Env) where
  -- `Expire` sets the time to live of the set, which is not kept here.
  unfoldable pub track_row_processing : String → ℕ → M (Unit {0})
  track_row_processing instance_id row_id = do
    sadd env (rows_key instance_id) (env.format_int64 row_id)
    call env redis_error

  unfoldable pub untrack_row_processing : String → ℕ → M (Unit {0})
  untrack_row_processing instance_id row_id =
      srem env (rows_key instance_id) (env.format_int64 row_id)

  unfoldable pub refresh_heartbeat : String → M (Unit {0})
  refresh_heartbeat instance_id = redis_set env (heartbeat_key instance_id) "alive" heartbeat_ttl

  unfoldable pub register_worker : String → M (Unit {0})
  register_worker instance_id = sadd env registry_key instance_id

  unfoldable pub deregister_worker : String → M (Unit {0})
  deregister_worker instance_id = srem env registry_key instance_id

  unfoldable pub reset_rows : List ℕ → M (Unit {0})
  reset_rows row_ids =
      with_rollback do begin env; tx_exec env (reset_rows_to_queued row_ids); commit env

  -- A text that is no number is passed over.
  abbrev pub parse_row_ids : List String → List ℕ
  parse_row_ids [] = []
  parse_row_ids (s ∷ rest) =
      let ids = parse_row_ids rest in elim (env.parse_int64 s) [ none ↦ ids | some i ↦ i ∷ ids ]

  abbrev drop_set : String → M ℕ
  drop_set instance_id = log_error (del env (rows_key instance_id)) >> pure 0

  unfoldable pub recover_rows_from_dead_instance : String → M ℕ
  recover_rows_from_dead_instance instance_id = do
    row_id_strs ← smembers env (rows_key instance_id)
    let row_ids = parse_row_ids row_id_strs
    if is_nil row_id_strs
        then drop_set instance_id
        else if is_nil row_ids
        then drop_set instance_id
        else do
          reset_rows row_ids
          log_error (del env (rows_key instance_id))
          pure (length row_ids)

  unfoldable pub recover_if_dead : String → M ℕ
  recover_if_dead instance_id = do
    alive ← key_exists env (heartbeat_key instance_id)
    if alive then pure 0 else do
      recovered ← recover_rows_from_dead_instance instance_id
      log_error (srem env registry_key instance_id)
      pure recovered

  -- The loop over the registry, which skips the manager's own instance.
  unfoldable pub recover_instances : String → List String → M ℕ
  recover_instances own [] = pure 0
  recover_instances own (instance_id ∷ rest) = do
    n ← (if str_eq instance_id own then pure 0 else or_zero (recover_if_dead instance_id))
    m ← recover_instances own rest
    pure (n + m)

  unfoldable pub recover_abandoned_rows : String → M ℕ
  recover_abandoned_rows own = do
    instance_ids ← smembers env registry_key
    recover_instances own instance_ids

  unfoldable pub shutdown : String → M (Unit {0})
  shutdown instance_id = do
    del env (heartbeat_key instance_id)
    log_error (deregister_worker instance_id)
