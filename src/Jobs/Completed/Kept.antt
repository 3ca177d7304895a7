-- ===== src/Jobs/Completed/Kept.antt =====
-- What the statements keep, the retry loop and the sweep keep.
use alya.Prelude.{ℕ, zero, suc, List, [], ◌∷◌, Bool, true, false, if◌then◌else◌}
use alya.Jobs.Db.{Db}
use alya.Jobs.Tables.Closed.{Closed}
use alya.Jobs.Machine.{
  Env, World, M, Result, ok, err, begin, cancelled, lock_not_acquired, has_pending_rows, panicked,
  Holds, Preserves, Preserves-bind, pure-Preserves, throw-Preserves, log_error-Preserves,
  begin-Preserves, commit-Preserves, rollback-Preserves, query-Preserves,
}
use alya.Jobs.Summary.{summarize_batch}
use alya.Jobs.Summary.Scope.{summarize_batch-Preserves}
use alya.Jobs.Completed.{
  max_retries, after_summary, attempts, summarize_completed_batches, sweep_unsummarized_batches,
}

module _ {P : Db → Type 0} (c : Closed P) (env : Env) (ctx_done : ℕ → Bool) where
  -- After a summary, whatever its result.
  after_summary-Preserves :
      (r : Result (Unit {0})) {retry : M (Unit {0})}
      → Preserves P retry
      → Preserves P (after_summary env ctx_done r retry)
  unfolding after_summary
  after_summary-Preserves (ok a) p = log_error-Preserves (commit-Preserves env)
  after_summary-Preserves (err lock_not_acquired) p = Preserves-bind (rollback-Preserves env) λ _. p
  after_summary-Preserves (err has_pending_rows) p = Preserves-bind (rollback-Preserves env) λ _. p
  after_summary-Preserves (err panicked) p = throw-Preserves panicked
  after_summary-Preserves (err _) p = rollback-Preserves env

  attempt-Holds :
      (done : Bool) (started : Result (Unit {0})) (w w1 : World) (p : Result (Unit {0}) × World)
      → Holds P w
      → Holds P w1
      → Holds P p.1
      → let q : Result (Unit {0}) × World =
          if done then (err cancelled, w) else elim started [ err e ↦ (ok tt, w1) | ok _ ↦ p ] in
        Holds P q.1
  attempt-Holds true started w w1 p h h1 h2 = h
  attempt-Holds false (ok x) w w1 p h h1 h2 = h2
  attempt-Holds false (err e) w w1 p h h1 h2 = h1

  attempts-Preserves : (left batch_id : ℕ) → Preserves P (attempts env ctx_done left batch_id)
  unfolding attempts
  attempts-Preserves zero i = record { after = λ w h. h }
  attempts-Preserves (suc left) i = record {
    after = λ w h.
        let h1 = (begin-Preserves env).after w h in
        let (r, w2) = summarize_batch env i (begin env w).1 in
        attempt-Holds (ctx_done w.calls) (begin env w).0 w (begin env w).1 _ h h1 (
          (after_summary-Preserves r (attempts-Preserves left i)).after w2
            ((summarize_batch-Preserves c env i).after (begin env w).1 h1));
  }

  pub summarize_completed_batches-Preserves :
      (batches : List ℕ) → Preserves P (summarize_completed_batches env ctx_done batches)
  unfolding summarize_completed_batches
  summarize_completed_batches-Preserves [] = pure-Preserves tt
  summarize_completed_batches-Preserves (i ∷ rest) =
      Preserves-bind (attempts-Preserves max_retries i)
        λ _. summarize_completed_batches-Preserves rest

  pub sweep-Preserves : Preserves P (sweep_unsummarized_batches env ctx_done)
  unfolding sweep_unsummarized_batches
  sweep-Preserves =
      Preserves-bind (query-Preserves env _) λ ids. summarize_completed_batches-Preserves ids
