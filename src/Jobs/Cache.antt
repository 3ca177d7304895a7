-- ===== src/Jobs/Cache.antt =====
-- What the service keeps in Redis about a batch (jobs/batchsummary.go).
use alya.Prelude.{ℕ, ◌*◌, String, Option, some, none, str_eq, if◌then◌else◌}
use alya.Prelude.Int.{ℤ}
use alya.Jobs.Status.{StatusEnum, queued, inprog, success, failed, aborted, wait, is_final}
use alya.Jobs.Types.{Files}
use alya.Jobs.Machine.{
  Env, M, Error, Result, ok, err, ◌>>=◌, or_throw, bad_json, redis_nil, redis_set, status_key,
  summary_key,
}

-- `string(status)`
abbrev pub status_string : StatusEnum → String
status_string queued = "queued"
status_string inprog = "inprog"
status_string success = "success"
status_string failed = "failed"
status_string aborted = "aborted"
status_string wait = "wait"

-- `StatusEnum(s)`; `none` is a text that is no status.
unfoldable pub scan_status : String → Option StatusEnum
scan_status s =
    if str_eq s "queued"
    then some queued
    else if str_eq s "inprog"
    then some inprog
    else if str_eq s "success"
    then some success
    else if str_eq s "failed"
    then some failed
    else if str_eq s "aborted"
    then some aborted
    else if str_eq s "wait"
    then some wait
    else none

-- A final status is kept a hundred times as long.
abbrev pub expiry_sec : ℕ → StatusEnum → ℕ
expiry_sec dur status = if is_final status then 100 * dur else dur

-- `redis.Nil` is no value, and any other error stays one.
abbrev pub or_nil : Error → Result (Option String)
or_nil redis_nil = ok none
or_nil e = err e

unfoldable pub get_if_there : M String → M (Option String)
get_if_there m w = let (r, w') = m w in elim r [ ok s ↦ (ok (some s), w') | err e ↦ (or_nil e, w') ]

module _ (env : Env) where
  abbrev pub update_status_in_redis : ℕ → StatusEnum → ℕ → M (Unit {0})
  update_status_in_redis batch_id status expiry =
      redis_set env (status_key (env.uuid_string batch_id)) (status_string status) expiry

  abbrev pub update_batch_summary_in_redis : ℕ → StatusEnum → Files → ℤ → ℤ → ℤ → ℕ → M (Unit {0})
  update_batch_summary_in_redis batch_id status output_files nsuccess nfailed naborted expiry = do
    summary_json ←
        or_throw
          (env.marshal_summary (record {
            status = status_string status;
            output_files = output_files;
            nsuccess = nsuccess;
            nfailed = nfailed;
            naborted = naborted;
          }))
          bad_json
    redis_set env (summary_key (env.uuid_string batch_id)) summary_json expiry
