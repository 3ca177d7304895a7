-- ===== src/Jobs/Summary/Tests.antt =====
-- The theorems on summaries at concrete tables.
use alya.Prelude.{ℕ, List, inl, inr, true, ◌≡◌, ◌↔◌, refl}
use alya.Jobs.Status.{success, failed, aborted, queued, is_final}
use alya.Jobs.Db.{BatchRow}
use alya.Jobs.Queries.{get_batch_rows_by_batch_id_sorted}
use alya.Jobs.Fixture.{a_world, tables, an_env, a_batch}
use alya.Jobs.Summary.{calculate_summary_counters, summarize_batch}
use alya.Jobs.Summary.Counters.{
  counters_of_table, summary_status, summary_status_exact, AllSucceeded, NoneAborted,
}
use alya.Jobs.Summary.Skips.{Untouched, summarize_batch_skips}

abbrev counted : ℕ × ℕ × ℕ
counted = (1, 1, 0)

counters_of_table_example :
    calculate_summary_counters (get_batch_rows_by_batch_id_sorted 7 (tables queued failed))
    ≡ counted
counters_of_table_example = counters_of_table 7 (tables queued failed)

abbrev done_rows : List BatchRow
done_rows = (tables queued aborted).batchrows

summary_status_exact_example :
    ((summary_status done_rows ≡ success) ↔ AllSucceeded done_rows)
    × ((summary_status done_rows ≡ aborted) ↔ (¬ NoneAborted done_rows))
    × (is_final (summary_status done_rows) ≡ true)
summary_status_exact_example = summary_status_exact done_rows (refl, (refl, tt))

summarize_batch_skips_example :
    Untouched
      (a_world (tables queued queued))
      (summarize_batch an_env 7 (a_world (tables queued queued))).1
summarize_batch_skips_example =
    summarize_batch_skips an_env 7 (a_batch queued) (a_world (tables queued queued)) refl
      (inr (inl refl))
