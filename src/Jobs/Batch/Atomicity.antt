-- ===== src/Jobs/Batch/Atomicity.antt =====
-- The tables after a call of jobs/batch.go that fails.
use alya.Prelude.{ℕ, List, [], ◌∷◌, Bool, String}
use alya.Jobs.Types.{JsonStr, BatchInput}
use alya.Jobs.Machine.{
  Env, Keeps, Keeps-bind, pure-Keeps, guard-Keeps, now-Keeps, tx_exec-Keeps, Atomic, atomic_rules,
}
use alya.Jobs.Batch.{batch_submit, append_rows, append_in_tx, batch_abort, abort_pending}

module _ (env : Env) where
  -- A submission that fails leaves the tables as they were.
  pub batch_submit-Atomic :
      (app op : String) (ctx : JsonStr) (input : List BatchInput) (waitabit : Bool)
      → Atomic (batch_submit env app op ctx input waitabit)
  unfolding batch_submit
  batch_submit-Atomic app op ctx input waitabit = search (atomic_rules, env) depth 40

  append_rows-Keeps : (i : ℕ) (xs : List BatchInput) → Keeps (append_rows env i xs)
  unfolding append_rows
  append_rows-Keeps i [] = pure-Keeps tt
  append_rows-Keeps i (x ∷ xs) = Keeps-bind (guard-Keeps _ _) λ _.
      Keeps-bind (now-Keeps env) λ _. Keeps-bind (tx_exec-Keeps env _) λ _. append_rows-Keeps i xs

  -- The transaction of an append, if it fails, leaves the tables as they were.
  pub append_in_tx-Atomic :
      (i : ℕ) (xs : List BatchInput) (waitabit : Bool) → Atomic (append_in_tx env i xs waitabit)
  unfolding append_in_tx
  append_in_tx-Atomic i xs waitabit = search (atomic_rules, append_rows-Keeps) depth 40

  abort_pending-Atomic : (i : ℕ) → Atomic (abort_pending env i)
  unfolding abort_pending
  abort_pending-Atomic i = search (atomic_rules, env) depth 40

  -- An abort that fails leaves the tables as they were.
  pub batch_abort-Atomic : (batch_id : String) → Atomic (batch_abort env batch_id)
  unfolding batch_abort
  batch_abort-Atomic batch_id = search (atomic_rules, abort_pending-Atomic, env) depth 40
