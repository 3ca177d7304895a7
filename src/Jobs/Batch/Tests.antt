-- ===== src/Jobs/Batch/Tests.antt =====
-- The theorems on the batch calls at concrete tables.
use alya.Prelude.{ℕ, [], ◌∷◌, ◌++◌, some, false, ◌≡◌, refl, length, All, any_if, ◌==◌, String}
use alya.Prelude.Int.{ℤ, pos, nonpositive}
use alya.Jobs.Status.{StatusEnum, queued, wait, aborted}
use alya.Jobs.Queries.{
  has_id, get_batch_by_id, get_batch_rows_by_batch_id, numbered_rows, bulk_insert_into_batch_rows,
}
use alya.Jobs.Machine.{Env, machine}
use alya.Jobs.Db.{Batch}
use alya.Jobs.Fixture.{
  a_world, tables, tables-IsValid, no_tables, an_env, env_failing, a_context, two_lines, a_batch,
  a_row_at,
}
use alya.Jobs.Batch.{
  batch_submit, batch_append, append_in_tx, batch_abort, abort_pending, release, append_rows,
}
use alya.Jobs.Batch.Abort.{abort_counts, batch_abort_settles}
use alya.Jobs.Batch.Append.{batch_append_ok, appended}
use alya.Jobs.Batch.Submit.{batch_submit_ok}

abbrev a_reply : StatusEnum × ℤ × ℤ × ℤ
a_reply = (aborted, pos 1, pos 0, pos 1)

abbrev an_id : String
an_id = "b7"

abbrev an_answer : String × ℕ
an_answer = ("b7", 2)

batch_abort_settles_example :
    let d = (batch_abort an_env "b7" (a_world (tables queued queued))).1.db in
    (d.batchrows ≡ (tables queued aborted).batchrows)
    × (d.batches
        ≡ record (a_batch aborted) {
          doneat = some 1005;
          nsuccess = some (pos 1);
          nfailed = some (pos 0);
          naborted = some (pos 1);
        }
          ∷ [])
    × (a_reply ≡ abort_counts 7 d)
unfolding batch_abort abort_pending machine
batch_abort_settles_example =
    batch_abort_settles an_env "b7" 7 (a_batch queued) (a_world (tables queued queued)) a_reply
      (tables-IsValid queued queued) refl refl refl refl

batch_submit_ok_example :
    let w = a_world no_tables in
    let d = (batch_submit an_env "crm" "LOAD" a_context two_lines false w).1.db in
    let rows = a_row_at 1002 1 (pos 1) ∷ a_row_at 1002 2 (pos 2) ∷ [] in
    (an_id ≡ an_env.uuid_string 7)
    × (any_if (has_id 7) [] ≡ false)
    × (d.batches ≡ record (a_batch queued) { reqat = 1001 } ∷ [])
    × (d.batchrows ≡ rows)
    × All (λ r. (r.batch ≡ 7) × (r.status ≡ queued)) rows
    × (length rows ≡ 2)
unfolding batch_submit machine bulk_insert_into_batch_rows numbered_rows
batch_submit_ok_example =
    batch_submit_ok an_env "crm" "LOAD" a_context two_lines false (a_world no_tables) an_id refl

batch_append_ok_example :
    let w = a_world (tables wait queued) in
    let d = (batch_append an_env "b7" two_lines false w).1.db in
    let new = a_row_at 1002 3 (pos 1) ∷ a_row_at 1003 4 (pos 2) ∷ [] in
    ((b : Batch) × (get_batch_by_id 7 w.db ≡ some b) × (b.status ≡ wait))
    × All (λ x. nonpositive x.line ≡ false) two_lines
    × (d.batchrows ≡ w.db.batchrows ++ new)
    × All (λ r. (r.batch ≡ 7) × (r.status ≡ queued)) new
    × (length new ≡ 2)
    × (d.batches ≡ (release 7 w.db).batches)
    × (4 ≡ length (get_batch_rows_by_batch_id 7 d))
unfolding batch_append append_in_tx append_rows appended machine
batch_append_ok_example =
    batch_append_ok an_env "b7" two_lines false 7 (a_world (tables wait queued)) 4 refl refl

-- The fourth call fails: the count that follows the update.
abbrev failing_count : Env
failing_count = env_failing (λ n. n == 3)
