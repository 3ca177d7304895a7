-- ===== src/Jobs/SlowQueryDone/Tests.antt =====
-- The calls at concrete tables.
use alya.Prelude.{[], ◌∷◌, ◌≡◌, refl, some, true}
use alya.Prelude.Int.{pos}
use alya.Jobs.Status.{success, try_later}
use alya.Jobs.Db.{Db}
use alya.Jobs.Machine.{machine}
use alya.Jobs.Fixture.{a_world, a_batch, a_row, an_env}
use alya.Jobs.Cache.{get_if_there}
use alya.Jobs.SlowQueryDone.{
  QueryReply, slow_query_done, query_done_from_db, get_batch_details, pipeline,
  update_status_and_output_files_data_in_redis,
}
use alya.Jobs.SlowQueryDone.Replies.{slow_query_done_try_later}

-- A slow query that has succeeded.
abbrev finished : Db
finished = record {
  batches = record (a_batch success) { outputfiles = some "{}" } ∷ [];
  batchrows = record (a_row 1 (pos 0) success) { res = some "42" } ∷ [];
  next_rowid = 2;
}

abbrev first_reply : QueryReply
first_reply = (try_later, record { value = "42"; valid = true }, some [])

slow_query_done_try_later_example : first_reply.0 ≡ try_later
unfolding slow_query_done query_done_from_db get_batch_details get_if_there pipeline
    update_status_and_output_files_data_in_redis machine
slow_query_done_try_later_example =
    slow_query_done_try_later an_env "b7" (a_world finished) first_reply refl refl
