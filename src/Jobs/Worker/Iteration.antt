-- ===== src/Jobs/Worker/Iteration.antt =====
-- One iteration of a worker (`RunOneIterationWithContext` of jobs/jobmanager.go), and the supervisor
-- that repeats it (`Run` and `RunWithContext`).
pub mod Rounds
pub mod Kept
mod Tests
use alya.Prelude.{
  ℕ, zero, suc, ◌+◌, List, [], ◌∷◌, String, Option, some, none, Bool, true, false, leb, contains,
  if◌then◌else◌,
}
use alya.Prelude.Int.{ℤ}
use alya.Jobs.Worker.Sleep.{get_random_sleep_duration}
use alya.Jobs.Queries.{FetchBlockOfRowsRow}
use alya.Jobs.Machine.{
  Env, World, M, Error, Result, ◌>>=◌, ◌>>◌, pure, throw, log_error, ok, err, panicked,
}
use alya.Jobs.Recovery.{track_row_processing}
use alya.Jobs.Completed.{summarize_completed_batches}
use alya.Jobs.Worker.Claim.{claim_block}
use alya.Jobs.Worker.Errors.{process_rows}

-- `maxConsecutivePanics`
abbrev pub max_consecutive_panics : ℕ
max_consecutive_panics = 3

-- The batches of a block, each once.
abbrev pub batch_set : List FetchBlockOfRowsRow → List ℕ
batch_set [] = []
batch_set (row ∷ rows) =
    let rest = batch_set rows in if contains row.batch rest then rest else row.batch ∷ rest

-- The deferred recovery: after a panic the iteration answers that it had no rows.
abbrev pub false_on_panic : Result Bool → Result Bool
false_on_panic (err panicked) = ok false
false_on_panic r = r

-- A panic in a round, which trips the circuit breaker or is counted.
abbrev pub count_panic : ℕ → Error → (ℕ → M ℕ) → M ℕ
count_panic consecutive_panics e next =
    if leb max_consecutive_panics (consecutive_panics + 1)
    then throw e
    else next (consecutive_panics + 1)

-- What a round of the supervisor does with the result of an iteration: `next` are the other
-- rounds, given the number of consecutive panics, and `pause` is the time to sleep where there were
-- no rows; without one the sleep panics. The sleep itself changes nothing.
abbrev pub after_iteration : Option ℤ → ℕ → Result Bool → (ℕ → M ℕ) → M ℕ
after_iteration pause consecutive_panics (ok true) next = next 0
after_iteration none consecutive_panics (ok false) next = count_panic 0 panicked next
after_iteration (some d) consecutive_panics (ok false) next = next 0
after_iteration pause consecutive_panics (err e) next = count_panic consecutive_panics e next

module _ (env : Env) where
  unfoldable pub track_rows : String → List FetchBlockOfRowsRow → M (Unit {0})
  track_rows instance_id [] = pure tt
  track_rows instance_id (row ∷ rows) = do
    log_error (track_row_processing env instance_id row.rowid)
    track_rows instance_id rows

  -- Every block is closed, and the map emptied. An error of `Close` is logged; a panic leaves the
  -- map as it is.
  unfoldable pub close_init_blocks : M (Unit {0})
  close_init_blocks w =
      if env.close_panics w.calls
      then (err panicked, record w { calls = w.calls + 1 })
      else (ok tt, record w { blocks = []; calls = w.calls + 1 })

  -- What follows the summaries: an error of theirs ends the iteration.
  abbrev pub after_summaries : Result (Unit {0}) → M Bool
  after_summaries (ok _) = close_init_blocks >> pure true
  after_summaries (err panicked) = throw panicked
  after_summaries (err _) = pure true

-- `locked` tells the rows that other transactions have locked, and `map_order` is the order in
-- which a Go map yields its keys.
module _ (env : Env) (error_text : Error → String) (ctx_done locked : ℕ → Bool)
    (map_order : List ℕ → List ℕ) (instance_id : String) where
  unfoldable pub summarize_block : List FetchBlockOfRowsRow → M Bool
  summarize_block block_of_rows w =
      if ctx_done w.calls
      then (ok true, w)
      else let (r, w') =
          summarize_completed_batches env ctx_done (map_order (batch_set block_of_rows)) w in
        after_summaries env r w'

  -- What follows the commit of the claim.
  unfoldable pub work_on_block : List FetchBlockOfRowsRow → M Bool
  work_on_block block_of_rows = do
    track_rows env instance_id block_of_rows
    process_rows env error_text instance_id block_of_rows []
    summarize_block block_of_rows

  -- The errors of the claim are `return false`.
  unfoldable pub run_one_iteration : ℕ → M Bool
  run_one_iteration batch_chunk_nrows w =
      let (claimed, w1) = claim_block env ctx_done locked batch_chunk_nrows w in
      elim claimed [
        | err e ↦ (ok false, w1)
        | ok block_of_rows ↦ let (r, w2) = work_on_block block_of_rows w1 in (false_on_panic r, w2)
      ]

  -- The first rounds of the supervisor's endless loop: the answer is the number of consecutive
  -- panics, and a panic is the circuit breaker's. A context that is done ends the loop of
  -- `RunWithContext`; that of `Run` is never done. `intn` is what `rand.Intn` draws.
  unfoldable pub run_rounds : ℤ → (ℕ → ℕ → ℕ) → ℕ → ℕ → ℕ → M ℕ
  run_rounds polling_interval_sec intn batch_chunk_nrows zero consecutive_panics w =
      (ok consecutive_panics, w)
  run_rounds polling_interval_sec intn batch_chunk_nrows (suc rounds) consecutive_panics w =
      let next : ℕ → M ℕ = run_rounds polling_interval_sec intn batch_chunk_nrows rounds in
      if ctx_done w.calls
      then (ok consecutive_panics, w)
      else let (r, w') = run_one_iteration batch_chunk_nrows w in
        after_iteration (get_random_sleep_duration (intn w'.calls) polling_interval_sec)
          consecutive_panics r next w'
