-- ===== src/Jobs/BatchStatus.antt =====
-- The call that reports on a batch without its rows (jobs/batch.go): from the cache, or else from the
-- table of batches.
mod Cached
pub mod Still
mod Tests
use alya.Prelude.{ℕ, List, [], Option, some, none, String}
use alya.Prelude.Int.{ℤ}
use alya.Jobs.Types.{Files}
use alya.Jobs.Queries.{get_batch_by_id}
use alya.Jobs.Machine.{
  Env, M, ◌>>=◌, ◌>>◌, pure, or_throw, log_error, query, redis_get, summary_key, ok, err, no_rows,
  invalid_id, bad_json,
}
use alya.Jobs.Cache.{status_string, expiry_sec, update_batch_summary_in_redis}
use alya.Jobs.Batch.{int4}

-- The status as the caller's text of it, the output files and the three counts.
abbrev pub StatusReply : Type 0
StatusReply = String × Files × ℤ × ℤ × ℤ

-- A missing key and an error of Redis are both no cached value.
unfoldable pub cached : M String → M (Option String)
cached m w = let (r, w') = m w in elim r [ ok s ↦ (ok (some s), w') | err e ↦ (ok none, w') ]

module _ (env : Env) where
  abbrev parse_output_files : Option String → M Files
  parse_output_files none = pure []
  parse_output_files (some s) = or_throw (env.unmarshal_files s) bad_json

  -- The reply from the table, which is then cached.
  unfoldable pub status_from_db : ℕ → M StatusReply
  status_from_db batch_uuid = do
    found ← query env (get_batch_by_id batch_uuid)
    batch ← or_throw found no_rows
    let nsuccess = int4 batch.nsuccess
    let nfailed = int4 batch.nfailed
    let naborted = int4 batch.naborted
    output_files ← parse_output_files batch.outputfiles
    log_error (
        update_batch_summary_in_redis env batch_uuid batch.status output_files nsuccess nfailed
          naborted (expiry_sec env.cache_dur_sec batch.status))
    pure (status_string batch.status, output_files, nsuccess, nfailed, naborted)

  unfoldable pub status_from_cache : String → M StatusReply
  status_from_cache summary_json = do
    summary ← or_throw (env.unmarshal_summary summary_json) bad_json
    pure (summary.status, summary.output_files, summary.nsuccess, summary.nfailed, summary.naborted)

  unfoldable pub batch_status : String → M StatusReply
  batch_status batch_id = do
    batch_uuid ← or_throw (env.parse_uuid batch_id) invalid_id
    summary_json ← cached (redis_get env (summary_key batch_id))
    elim summary_json [ some s ↦ status_from_cache s | none ↦ status_from_db batch_uuid ]
