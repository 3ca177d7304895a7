-- ===== src/Jobs/Worker/Iteration/Kept.antt =====
-- What the statements keep, an iteration of a worker keeps.
use alya.Prelude.{ℕ, List, [], ◌∷◌, String, Bool, true, false, refl, arith, if◌then◌else◌}
use alya.Jobs.Db.{Db}
use alya.Jobs.Tables.Closed.{Closed}
use alya.Jobs.Queries.{FetchBlockOfRowsRow}
use alya.Jobs.Machine.{
  Env, World, Error, Result, ok, err, panicked, Holds, Inert, Inert-bind, pure-Inert, throw-Inert,
  log_error-Inert, call-Inert, Preserves, Preserves-bind, Preserves-of_Inert, sadd,
}
use alya.Jobs.Recovery.{track_row_processing}
use alya.Jobs.Completed.{summarize_completed_batches}
use alya.Jobs.Completed.Kept.{summarize_completed_batches-Preserves}
use alya.Jobs.Worker.Claim.{claim_block}
use alya.Jobs.Worker.Claim.Kept.{claim_block-Preserves}
use alya.Jobs.Worker.Errors.Valid.{process_rows-Preserves}
use alya.Jobs.Worker.Iteration.{
  batch_set, track_rows, close_init_blocks, after_summaries, summarize_block, work_on_block,
  false_on_panic, run_one_iteration,
}

module _ (env : Env) where
  track_row-Inert : (id : String) (n : ℕ) → Inert (track_row_processing env id n)
  unfolding track_row_processing sadd
  track_row-Inert id n =
      Inert-bind (Inert-bind (call-Inert env _) λ _. record { same = λ w. (refl, refl, refl) })
        λ _. call-Inert env _

  track_rows-Inert :
      (id : String) (rows : List FetchBlockOfRowsRow) → Inert (track_rows env id rows)
  unfolding track_rows
  track_rows-Inert id [] = pure-Inert tt
  track_rows-Inert id (row ∷ rows) =
      Inert-bind (log_error-Inert (track_row-Inert id row.rowid)) λ _. track_rows-Inert id rows

  close_init_blocks-Inert : Inert (close_init_blocks env)
  unfolding close_init_blocks
  close_init_blocks-Inert = record { same = λ w. ground arith }

  after_summaries-Inert : (r : Result (Unit {0})) → Inert (after_summaries env r)
  after_summaries-Inert (ok a) = Inert-bind close_init_blocks-Inert λ _. pure-Inert true
  after_summaries-Inert (err panicked) = throw-Inert panicked
  after_summaries-Inert (err _) = pure-Inert true

module _ {P : Db → Type 0} (c : Closed P) (env : Env) (error_text : Error → String)
    (ctx_done locked : ℕ → Bool) (map_order : List ℕ → List ℕ) (instance_id : String) where
  summarize_block-Preserves :
      (rows : List FetchBlockOfRowsRow)
      → Preserves P (summarize_block env error_text ctx_done locked map_order instance_id rows)
  unfolding summarize_block
  summarize_block-Preserves rows = record {
    after = λ w h.
        let (r, w') = summarize_completed_batches env ctx_done (map_order (batch_set rows)) w in
        either (ctx_done w.calls) w (after_summaries env r w') h (
          (Preserves-of_Inert (after_summaries-Inert env r)).after w'
            ((summarize_completed_batches-Preserves c env ctx_done _).after w h));
  }
    where
      either :
          (done : Bool) (w : World) (q : Result Bool × World)
          → Holds P w
          → Holds P q.1
          → Holds P (if done then (ok true, w) else q).1
      either true w q h k = h
      either false w q h k = k

  work_on_block-Preserves :
      (rows : List FetchBlockOfRowsRow)
      → Preserves P (work_on_block env error_text ctx_done locked map_order instance_id rows)
  unfolding work_on_block
  work_on_block-Preserves rows =
      Preserves-bind (Preserves-of_Inert (track_rows-Inert env instance_id rows)) λ _.
        Preserves-bind (process_rows-Preserves c env error_text instance_id rows [])
          λ _. summarize_block-Preserves rows

  pub run_one_iteration-Preserves :
      (n : ℕ)
      → Preserves P (run_one_iteration env error_text ctx_done locked map_order instance_id n)
  unfolding run_one_iteration
  run_one_iteration-Preserves n = record {
    after = λ w h.
        let (r, w1) = claim_block env ctx_done locked n w in
        go r w1 ((claim_block-Preserves c env ctx_done locked n).after w h);
  }
    where
      go :
          (r : Result (List FetchBlockOfRowsRow)) (w1 : World)
          → Holds P w1
          → Holds P
              (elim r as (λ _. Result Bool × World) [
                | err e ↦ (ok false, w1)
                | ok rows ↦
                    let (r, w2) =
                      work_on_block env error_text ctx_done locked map_order instance_id rows w1 in
                    (false_on_panic r, w2)
              ]).1
      go (err x) w1 h = h
      go (ok rows) w1 h = (work_on_block-Preserves rows).after w1 h
