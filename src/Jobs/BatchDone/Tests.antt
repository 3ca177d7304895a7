-- ===== src/Jobs/BatchDone/Tests.antt =====
-- The calls on a batch whose two rows are done.
use alya.Prelude.{[], ◌∷◌, true, ◌≡◌, refl}
use alya.Prelude.Int.{pos}
use alya.Jobs.Status.{success, batch_success, map_status_enum}
use alya.Jobs.Types.{JsonStr, new_json_str}
use alya.Jobs.Cache.{get_if_there, scan_status}
use alya.Jobs.Machine.{machine}
use alya.Jobs.Fixture.{a_world, a_batch, tables, an_env}
use alya.Jobs.BatchDone.{
  BatchOutput, DoneReply, convert_rows, final_reply, done_from_db, batch_done,
}
use alya.Jobs.BatchDone.Replies.{Reports, batch_done_ok}
use alya.Jobs.BatchDone.Cached.{batch_done_cached}

abbrev empty_object : JsonStr
empty_object = record { value = "{}"; valid = true }

abbrev an_output : BatchOutput
an_output = record {
  line = pos 1;
  status = batch_success;
  res = empty_object;
  messages = empty_object;
}

abbrev a_reply : DoneReply
a_reply = ("success", an_output ∷ record an_output { line = pos 2 } ∷ [], [], pos 0, pos 0, pos 0)

batch_done_ok_example :
    Reports an_env 7 (a_batch success) (tables success success) (scan_status "success") a_reply
unfolding batch_done done_from_db final_reply convert_rows get_if_there machine scan_status
    new_json_str map_status_enum
batch_done_ok_example =
    batch_done_ok an_env "b7" 7 (a_batch success) (a_world (tables success success)) a_reply refl
      refl refl

batch_done_cached_example :
    let (reply, w') = batch_done an_env "b7" (a_world (tables success success)) in
    (batch_done an_env "b7" w').0 ≡ reply
batch_done_cached_example =
    batch_done_cached an_env 7 (a_batch success) (a_world (tables success success)) (λ n. refl) refl
      refl refl
