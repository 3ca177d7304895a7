-- ===== src/Jobs/Batch/Invariant.antt =====
-- What the statements keep, the calls of jobs/batch.go keep, whatever their calls do: each of these
-- is about a property of the tables, of what is committed and of what the transaction would commit.
use alya.Prelude.{ℕ, List, [], ◌∷◌, Bool, String}
use alya.Jobs.Types.{JsonStr, BatchInput}
use alya.Jobs.Db.{Db}
use alya.Jobs.Tables.Closed.{Growing, Closed}
use alya.Jobs.Machine.{
  Env, Preserves, Preserves-bind, pure-Preserves, guard-Preserves, now-Preserves, tx_exec-Preserves,
  preserves_rules,
}
use alya.Jobs.Batch.{
  batch_submit, append_rows, append_in_tx, batch_append, release_waiting, wait_off, batch_abort,
  abort_pending,
}

module _ {P : Db → Type 0} (g : Growing P) (env : Env) where
  pub batch_submit-Preserves :
      (app op : String) (ctx : JsonStr) (input : List BatchInput) (waitabit : Bool)
      → Preserves P (batch_submit env app op ctx input waitabit)
  unfolding batch_submit
  batch_submit-Preserves app op ctx input waitabit =
      search (preserves_rules, g.bulk_insert-keeps, g.insert_batch-keeps, env) depth 40

  append_rows-Preserves : (i : ℕ) (xs : List BatchInput) → Preserves P (append_rows env i xs)
  unfolding append_rows
  append_rows-Preserves i [] = pure-Preserves tt
  append_rows-Preserves i (x ∷ xs) = Preserves-bind (guard-Preserves _ _) λ _.
      Preserves-bind (now-Preserves env) λ _.
        Preserves-bind (tx_exec-Preserves env _ (g.insert_row-keeps i _ _ _))
          λ _. append_rows-Preserves i xs

  append_in_tx-Preserves :
      (i : ℕ) (xs : List BatchInput) (waitabit : Bool)
      → Preserves P (append_in_tx env i xs waitabit)
  unfolding append_in_tx
  append_in_tx-Preserves i xs waitabit =
      search (preserves_rules, g.update_batches-keeps, append_rows-Preserves) depth 40

  pub batch_append-Preserves :
      (batch_id : String) (xs : List BatchInput) (waitabit : Bool)
      → Preserves P (batch_append env batch_id xs waitabit)
  unfolding batch_append
  batch_append-Preserves batch_id xs waitabit =
      search (preserves_rules, append_in_tx-Preserves) depth 40

  pub wait_off-Preserves : (batch_id : String) → Preserves P (wait_off env batch_id)
  unfolding wait_off release_waiting
  wait_off-Preserves batch_id = search (preserves_rules, g.update_batches-keeps, env) depth 40

module _ {P : Db → Type 0} (c : Closed P) (env : Env) where
  abort_pending-Preserves : (i : ℕ) → Preserves P (abort_pending env i)
  unfolding abort_pending
  abort_pending-Preserves i =
      search (preserves_rules, c.growing.update_batches-keeps, c.update_batchrows-keeps, env) depth
        40

  pub batch_abort-Preserves : (batch_id : String) → Preserves P (batch_abort env batch_id)
  unfolding batch_abort
  batch_abort-Preserves batch_id = search (preserves_rules, abort_pending-Preserves) depth 40
