-- ===== src/Jobs/Completed/Closing.antt =====
-- The transactions of the retry loop (`summarizeCompletedBatches` of jobs/jobmanager.go).
use alya.Prelude.{
  ℕ, zero, suc, ◌+◌, ◌-◌, List, [], ◌∷◌, Bool, true, false, ◌≡◌, refl, arith, ap, ◌∙◌,
  if◌then◌else◌,
}
use alya.Jobs.Machine.{Env, World, M, Result, Error, ok, err, begin, cancelled, panicked, machine}
use alya.Jobs.Summary.{summarize_batch}
use alya.Jobs.Summary.Scope.{summarize_batch-Stays}
use alya.Jobs.Completed.{max_retries, after_summary, attempts, summarize_completed_batches}

-- The transactions that a run with this result leaves open.
abbrev pub left_open : Result (Unit {0}) → ℕ
left_open (err panicked) = 1
left_open _ = 0

module _ (env : Env) (ctx_done : ℕ → Bool) where
  after_summary_closes :
      (r : Result (Unit {0})) (retry : M (Unit {0})) (w : World) (n : ℕ)
      → w.open_txs ≡ n + 1
      → ((w' : World) → w'.open_txs ≡ n → (retry w').1.open_txs ≡ n + left_open (retry w').0)
      → (after_summary env ctx_done r retry w).1.open_txs
        ≡ n + left_open (after_summary env ctx_done r retry w).0
  unfolding after_summary machine
  after_summary_closes (ok a) retry w n h k = ground arith
  after_summary_closes (err e) retry w n h k =
      let shut : World = record w { pending = λ d. d; open_txs = w.open_txs - 1 } in
      ground (arith, k shut)

  begin_opens :
      (w : World)
      → ((e : Error) → (begin env w).0 ≡ err e → (begin env w).1.open_txs ≡ w.open_txs)
        × ((begin env w).0 ≡ ok tt → (begin env w).1.open_txs ≡ w.open_txs + 1)
  unfolding machine
  begin_opens w = (λ e h. ground arith, λ h. ground arith)

  -- One attempt, from the result of the test of the context and of the beginning.
  attempt_closes :
      (done : Bool) (started : Result (Unit {0})) (w w1 : World) (p : Result (Unit {0}) × World)
      → ((e : Error) → started ≡ err e → w1.open_txs ≡ w.open_txs)
      → (started ≡ ok tt → p.1.open_txs ≡ w.open_txs + left_open p.0)
      → let q : Result (Unit {0}) × World =
          if done then (err cancelled, w) else elim started [ err e ↦ (ok tt, w1) | ok _ ↦ p ] in
        q.1.open_txs ≡ w.open_txs + left_open q.0
  attempt_closes true started w w1 p a b = omega arith
  attempt_closes false (ok x) w w1 p a b = b refl
  attempt_closes false (err e) w w1 p a b = a e refl ∙ omega arith

  -- However the attempts on a batch end, the transactions they have begun are closed, except that
  -- a panic leaves exactly one open: no rollback is deferred in the loop.
  pub attempts_closes :
      (left batch_id : ℕ) (w : World)
      → (attempts env ctx_done left batch_id w).1.open_txs
        ≡ w.open_txs + left_open (attempts env ctx_done left batch_id w).0
  unfolding attempts
  attempts_closes zero i w = omega arith
  attempts_closes (suc left) i w =
      let start = (begin env w).1 in
      let run = summarize_batch env i start in
      let retry : M (Unit {0}) = attempts env ctx_done left i in
      attempt_closes (ctx_done w.calls) (begin env w).0 w start
        (after_summary env ctx_done run.0 retry run.1) (begin_opens w).0
        (λ h.
          after_summary_closes run.0 retry run.1 w.open_txs
            ((summarize_batch-Stays env i).same_open start ∙ (begin_opens w).1 h)
            (λ w' e. attempts_closes left i w' ∙ ap (λ n. n + left_open (retry w').0) e))

  -- The same of the whole loop over the set of batches.
  pub summarize_completed_batches_closes :
      (batches : List ℕ) (w : World)
      → (summarize_completed_batches env ctx_done batches w).1.open_txs
        ≡ w.open_txs + left_open (summarize_completed_batches env ctx_done batches w).0
  unfolding summarize_completed_batches machine
  summarize_completed_batches_closes [] w = omega arith
  summarize_completed_batches_closes (i ∷ rest) w =
      let next = (attempts env ctx_done max_retries i w).1 in
      ground (arith, attempts_closes max_retries i w, summarize_completed_batches_closes rest next)
