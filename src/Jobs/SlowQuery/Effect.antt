-- ===== src/Jobs/SlowQuery/Effect.antt =====
-- What a successful submission or abort of a slow query does to the tables.
use alya.Prelude.{
  ℕ, ◌+◌, [], ◌∷◌, ◌++◌, none, some, String, false, ◌≡◌, arith, any_if, update_if, Bool-cases, inl,
  inr,
}
use alya.Prelude.Int.{pos}
use alya.Jobs.Status.{aborted, is_final}
use alya.Jobs.Types.{JsonStr}
use alya.Jobs.Db.{Batch}
use alya.Jobs.Queries.{has_id, new_row, get_batch_by_id, is_pending_in}
use alya.Jobs.Machine.{Env, World, ok, machine}
use alya.Jobs.Tables.{IsValid}
use alya.Jobs.Rows.{update_if-rowids}
use alya.Jobs.Batch.Submit.{submitted}
use alya.Jobs.SlowQuery.{slow_query_submit, slow_query_abort}

module _ (env : Env) where
  -- A successful submission adds a queued batch with the op in lower case and one queued row, on
  -- line 0, and returns the text of the new UUID.
  pub slow_query_submit_ok :
      (app op : String) (ctx input : JsonStr) (w : World) (s : String)
      → (slow_query_submit env app op ctx input w).0 ≡ ok s
      → let d = (slow_query_submit env app op ctx input w).1.db in
        let id = env.fresh_uuid (w.calls + 1) in
        (s ≡ env.uuid_string id)
        × (any_if (has_id id) w.db.batches ≡ false)
        × (d.batches
            ≡ w.db.batches
              ++ submitted id app (env.to_lower op) ctx.value false (env.clock (w.calls + 1)) ∷ [])
        × (d.batchrows
            ≡ w.db.batchrows
              ++ new_row w.db.next_rowid id (pos 0) input.value (env.clock (w.calls + 2)) ∷ [])
  unfolding slow_query_submit machine
  slow_query_submit_ok app op ctx input w s h =
      let id = env.fresh_uuid (w.calls + 1) in
      elim (Bool-cases (any_if (has_id id) w.db.batches)) [
        | inl e ↦ absurd (ground arith)
        | inr e ↦ (ground arith, e, ground arith, ground arith)
      ]

  -- A successful abort marks the batch aborted, with its time and no counts, and aborts the rows
  -- of the batch that were queued or in progress; no other row changes.
  pub slow_query_abort_ok :
      (req_id : String) (i : ℕ) (b : Batch) (w : World)
      → IsValid w.db
      → env.parse_uuid req_id ≡ some i
      → get_batch_by_id i w.db ≡ some b
      → (slow_query_abort env req_id w).0 ≡ ok tt
      → let d = (slow_query_abort env req_id w).1.db in
        (is_final b.status ≡ false)
        × (d.batchrows
            ≡ update_if (is_pending_in i) (λ r. record r { status = aborted }) w.db.batchrows)
        × (d.batches
            ≡ update_if
                (has_id i)
                (λ b. record b {
                  status = aborted;
                  doneat = some (env.clock (w.calls + 2));
                  outputfiles = none;
                  nsuccess = none;
                  nfailed = none;
                  naborted = none;
                })
                w.db.batches)
  unfolding slow_query_abort machine
  slow_query_abort_ok req_id i b w v hp hb h =
      let rows =
        update_if-rowids (is_pending_in i) (λ r. record r { status = aborted }) w.db.batchrows
          v.unique_rowids in
      (ground arith, ground (arith, rows), ground arith)
