-- ===== src/Jobs/Summary/Skips.antt =====
-- The checks that stand before a summary.
use alya.Prelude.{ℕ, ◌+◌, some, true, ◌≡◌, ◌⊎◌, inl, inr, arith, ltb}
use alya.Jobs.Db.{Batch}
use alya.Jobs.Queries.{get_batch_by_id, count_batch_rows_queued, count_batch_rows_in_prog}
use alya.Jobs.Machine.{Env, World, machine}
use alya.Jobs.Summary.{
  try_advisory_lock_batch, summarize_pending, summarize_unfinished, summarize_batch,
}

-- Nothing but the number of calls has changed.
abbrev pub Untouched : World → World → Type 0
Untouched w w' =
    (w'.db ≡ w.db)
    × (w'.pending ≡ w.pending)
    × (w'.redis ≡ w.redis)
    × (w'.objects ≡ w.objects)
    × (w'.blocks ≡ w.blocks)
    × (w'.marked ≡ w.marked)

module _ (env : Env) where
  pending_skips :
      (i : ℕ) (b : Batch) (w : World)
      → ltb 0 (count_batch_rows_in_prog i (w.pending w.db)) ≡ true
      → Untouched w (summarize_pending env i b w).1
  unfolding summarize_pending machine
  pending_skips i b w h =
      (ground arith, ground arith, ground arith, ground arith, ground arith, ground arith)

  unfinished_skips :
      (i : ℕ) (b : Batch) (w : World)
      → (ltb 0 (count_batch_rows_queued i (w.pending w.db)) ≡ true)
        ⊎ (ltb 0 (count_batch_rows_in_prog i (w.pending w.db)) ≡ true)
      → Untouched w (summarize_unfinished env i b w).1
  unfolding summarize_unfinished machine
  unfinished_skips i b w h =
      let next = record w { calls = w.calls + 1 } in
      elim h [
        | inl e ↦
            (ground arith, ground arith, ground arith, ground arith, ground arith, ground arith)
        | inr e ↦
            let k = pending_skips i b next e in
            (ground arith, ground arith, ground arith, ground arith, ground arith, ground arith)
      ]

  -- A batch that is summarised already, or has a row queued or in progress as the transaction sees
  -- it, is not summarised: whatever the call answers, the tables, what the transaction has written,
  -- the cache, the object store and the init blocks are as before, and `MarkDone` is not called.
  pub summarize_batch_skips :
      (i : ℕ) (b : Batch) (w : World)
      → get_batch_by_id i (w.pending w.db) ≡ some b
      → (((t : ℕ) × (b.doneat ≡ some t))
          ⊎ ((ltb 0 (count_batch_rows_queued i (w.pending w.db)) ≡ true)
              ⊎ (ltb 0 (count_batch_rows_in_prog i (w.pending w.db)) ≡ true)))
      → Untouched w (summarize_batch env i w).1
  unfolding summarize_batch try_advisory_lock_batch machine
  summarize_batch_skips i b w hb h =
      let next = record w { calls = w.calls + 1 + 1 } in
      elim h [
        | inl (t, e) ↦
            (ground arith, ground arith, ground arith, ground arith, ground arith, ground arith)
        | inr p ↦
            let k = unfinished_skips i b next p in
            (
              ground (arith, k.0),
              ground (arith, k.1),
              ground (arith, k.2),
              ground (arith, k.3),
              ground (arith, k.4),
              ground (arith, k.5),
            )
      ]
