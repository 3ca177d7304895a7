-- ===== src/Jobs/Summary/Counters.antt =====
-- The counters and the status of a summary, against plain counts over the table.
use alya.Prelude.{
  ℕ, ◌+◌, List, [], ◌∷◌, Bool, true, false, ◌≡◌, ◌↔◌, refl, arith, count_if, select, All, ◌&&◌,
  ◌==◌,
}
use native.Mathlib.Decide.{ℕ_discrete}
use alya.Jobs.Status.{StatusEnum, success, failed, aborted, status_eq, is_final}
use alya.Jobs.Db.{BatchRow, Db}
use alya.Jobs.Queries.{in_batch, insert_by_line, order_by_line, get_batch_rows_by_batch_id_sorted}
use alya.Jobs.Rows.{has_status}
use alya.Jobs.Summary.{calculate_summary_counters, determine_batch_status}

counters_counts :
    (rs : List BatchRow)
    → calculate_summary_counters rs ≡ (
      count_if (has_status success) rs,
      count_if (has_status failed) rs,
      count_if (has_status aborted) rs,
    )
unfolding calculate_summary_counters
counters_counts [] = refl
counters_counts (r ∷ rs) = ground (arith, counters_counts rs)

count_if-insert_by_line :
    (p : BatchRow → Bool) (r : BatchRow) (rs : List BatchRow)
    → count_if p (insert_by_line r rs) ≡ count_if p (r ∷ rs)
unfolding insert_by_line
count_if-insert_by_line p r [] = refl
count_if-insert_by_line p r (s ∷ rs) = ground (arith, count_if-insert_by_line p r rs)

count_if-order_by_line :
    (p : BatchRow → Bool) (rs : List BatchRow) → count_if p (order_by_line rs) ≡ count_if p rs
unfolding order_by_line
count_if-order_by_line p [] = refl
count_if-order_by_line p (r ∷ rs) =
    ground (arith, count_if-insert_by_line p r (order_by_line rs), count_if-order_by_line p rs)

count_if-select :
    (p q : BatchRow → Bool) (rs : List BatchRow)
    → count_if p (select q rs) ≡ count_if (λ r. q r && p r) rs
count_if-select p q [] = refl
count_if-select p q (r ∷ rs) = ground (arith, count_if-select p q rs)

-- The counters of a summary are the numbers of the batch's rows in the table that succeeded,
-- failed and were aborted, in whatever order the rows are read.
pub counters_of_table :
    (i : ℕ) (d : Db)
    → calculate_summary_counters (get_batch_rows_by_batch_id_sorted i d) ≡ (
      count_if (λ r. (r.batch == i) && has_status success r) d.batchrows,
      count_if (λ r. (r.batch == i) && has_status failed r) d.batchrows,
      count_if (λ r. (r.batch == i) && has_status aborted r) d.batchrows,
    )
unfolding get_batch_rows_by_batch_id_sorted
counters_of_table i d =
    let rs = select (in_batch i) d.batchrows in
    cc (
      counters_counts (order_by_line rs),
      count_if-order_by_line (has_status success) rs,
      count_if-order_by_line (has_status failed) rs,
      count_if-order_by_line (has_status aborted) rs,
      count_if-select (has_status success) (in_batch i) d.batchrows,
      count_if-select (has_status failed) (in_batch i) d.batchrows,
      count_if-select (has_status aborted) (in_batch i) d.batchrows,
    )

-- The status that a summary gives to rows with these statuses.
abbrev pub summary_status : List BatchRow → StatusEnum
summary_status rs =
    let (nsuccess, nfailed, naborted) = calculate_summary_counters rs in
    determine_batch_status nsuccess nfailed naborted

abbrev pub AllFinal : List BatchRow → Type 0
AllFinal rs = All (λ r. is_final r.status ≡ true) rs

abbrev pub AllSucceeded : List BatchRow → Type 0
AllSucceeded rs = All (λ r. r.status ≡ success) rs

abbrev pub NoneAborted : List BatchRow → Type 0
NoneAborted rs = All (λ r. status_eq r.status aborted ≡ false) rs

counts_final :
    (rs : List BatchRow)
    → AllFinal rs
    → (count_if (has_status failed) rs + count_if (has_status aborted) rs ≡ 0)
    → AllSucceeded rs
counts_final [] h e = tt
counts_final (r ∷ rs) h e = (ground arith, counts_final rs h.1 (ground arith))

counts_succeeded :
    (rs : List BatchRow)
    → AllSucceeded rs
    → count_if (has_status failed) rs + count_if (has_status aborted) rs ≡ 0
counts_succeeded [] h = omega arith
counts_succeeded (r ∷ rs) h = ground (arith, counts_succeeded rs h.1, h.0)

none_aborted : (rs : List BatchRow) → count_if (has_status aborted) rs ≡ 0 → NoneAborted rs
none_aborted [] e = tt
none_aborted (r ∷ rs) e = (ground arith, none_aborted rs (ground arith))

count-NoneAborted : (rs : List BatchRow) → NoneAborted rs → count_if (has_status aborted) rs ≡ 0
count-NoneAborted [] h = refl
count-NoneAborted (r ∷ rs) h = ground (arith, count-NoneAborted rs h.1, h.0)

-- When every row is done, the batch is a success exactly when every row is, and it is aborted
-- exactly when some row is; it is marked with no other status than these and failed.
pub summary_status_exact :
    (rs : List BatchRow)
    → AllFinal rs
    → ((summary_status rs ≡ success) ↔ AllSucceeded rs)
      × ((summary_status rs ≡ aborted) ↔ (¬ NoneAborted rs))
      × (is_final (summary_status rs) ≡ true)
unfolding determine_batch_status
summary_status_exact rs h = (
  (
    λ e. counts_final rs h (ground (arith, counters_counts rs)),
    λ all. ground (arith, counters_counts rs, counts_succeeded rs all),
  ),
  (
    λ e none. ground (arith, counters_counts rs, count-NoneAborted rs none),
    λ some. elim (ℕ_discrete (count_if (has_status aborted) rs) 0) [
      | yes e ↦ absurd (some (none_aborted rs e))
      | no n ↦ ground (arith, counters_counts rs)
    ],
  ),
  ground (arith, counters_counts rs),
)
