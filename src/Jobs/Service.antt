-- ===== src/Jobs/Service.antt =====
-- The service as a whole: the calls of its clients and the runs of its workers, in any order.
mod Kept
pub mod Lifecycle
mod Steps
mod Tests
use alya.Prelude.{ℕ, List, [], ◌∷◌, String, Bool}
use alya.Jobs.Types.{JsonStr, BatchInput}
use alya.Jobs.Machine.{Env, World, Error}
use alya.Jobs.Batch.{batch_submit, batch_append, wait_off, batch_abort}
use alya.Jobs.BatchStatus.{batch_status}
use alya.Jobs.SlowQuery.{slow_query_submit, slow_query_abort}
use alya.Jobs.BatchDone.{batch_done}
use alya.Jobs.SlowQueryDone.{slow_query_done}
use alya.Jobs.Completed.{sweep_unsummarized_batches}
use alya.Jobs.Recovery.{recover_abandoned_rows}
use alya.Jobs.Worker.Iteration.{run_one_iteration}

-- A run of a worker comes with when its context is done, the rows that others have locked, the
-- order of its map and its instance.
pub data Operation : Type 0 where
  submits : String → String → JsonStr → List BatchInput → Bool → Operation
  appends : String → List BatchInput → Bool → Operation
  waits_off aborts asks_status asks_result : String → Operation
  submits_query : String → String → JsonStr → JsonStr → Operation
  aborts_query asks_query : String → Operation
  iterates : (ℕ → Bool) → (ℕ → Bool) → (List ℕ → List ℕ) → String → ℕ → Operation
  recovers : String → Operation
  sweeps : (ℕ → Bool) → Operation

module _ (env : Env) (error_text : Error → String) where
  unfoldable pub perform : Operation → World → World
  perform (submits app op context input waitabit) w =
      (batch_submit env app op context input waitabit w).1
  perform (appends batch_id input waitabit) w = (batch_append env batch_id input waitabit w).1
  perform (waits_off batch_id) w = (wait_off env batch_id w).1
  perform (aborts batch_id) w = (batch_abort env batch_id w).1
  perform (asks_status batch_id) w = (batch_status env batch_id w).1
  perform (asks_result batch_id) w = (batch_done env batch_id w).1
  perform (submits_query app op context input) w = (slow_query_submit env app op context input w).1
  perform (aborts_query req_id) w = (slow_query_abort env req_id w).1
  perform (asks_query req_id) w = (slow_query_done env req_id w).1
  perform (iterates ctx_done locked map_order instance_id batch_chunk_nrows) w =
      (run_one_iteration env error_text ctx_done locked map_order instance_id batch_chunk_nrows w).1
  perform (recovers instance_id) w = (recover_abandoned_rows env instance_id w).1
  perform (sweeps ctx_done) w = (sweep_unsummarized_batches env ctx_done w).1

  abbrev pub perform_all : List Operation → World → World
  perform_all [] w = w
  perform_all (x ∷ xs) w = perform_all xs (perform x w)
