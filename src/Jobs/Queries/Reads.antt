-- ===== src/Jobs/Queries/Reads.antt =====
-- The SELECT statements.
use alya.Prelude.{
  ℕ, List, [], ◌∷◌, Option, some, none, String, Bool, true, false, ◌&&◌, not, ◌==◌, if◌then◌else◌,
  leb, select, count_if, find_if, any_if, take,
}
use alya.Prelude.Int.{ℤ, pos, negsuc}
use alya.Jobs.Status.{StatusEnum, queued, inprog, wait, status_eq, is_processed}
use alya.Jobs.Db.{Batch, BatchRow, Db}
use alya.Jobs.Queries.Tests.{has_id, in_batch, is_pending_in}

abbrev pub get_batch_by_id : ℕ → Db → Option Batch
get_batch_by_id i db = find_if (has_id i) db.batches

abbrev pub get_batch_rows_by_batch_id : ℕ → Db → List BatchRow
get_batch_rows_by_batch_id i db = select (in_batch i) db.batchrows

abbrev pub fetch_batch_rows_for_batch_done : ℕ → Db → List BatchRow
fetch_batch_rows_for_batch_done i db = select (in_batch i) db.batchrows

-- The first row of the join with the batch's rows: status, output files and result.
abbrev pub get_batch_status_and_output_files :
    ℕ → Db → Option (StatusEnum × Option String × Option String)
get_batch_status_and_output_files i db = elim (find_if (has_id i) db.batches) [
  | none ↦ none
  | some b ↦ elim (find_if (in_batch i) db.batchrows) [
    | none ↦ none
    | some r ↦ some (b.status, b.outputfiles, r.res)
  ]
]

abbrev pub get_pending_batch_rows : ℕ → Db → List BatchRow
get_pending_batch_rows i db = select (is_pending_in i) db.batchrows

abbrev pub get_batch_rows_count : ℕ → Db → ℕ
get_batch_rows_count i db = count_if (in_batch i) db.batchrows

abbrev pub count_batch_rows_queued : ℕ → Db → ℕ
count_batch_rows_queued i db =
    count_if (λ r. (r.batch == i) && status_eq r.status queued) db.batchrows

abbrev pub count_batch_rows_in_prog : ℕ → Db → ℕ
count_batch_rows_in_prog i db =
    count_if (λ r. (r.batch == i) && status_eq r.status inprog) db.batchrows

-- ORDER BY line
abbrev pub line_leb : ℤ → ℤ → Bool
line_leb (pos a) (pos b) = leb a b
line_leb (pos a) (negsuc b) = false
line_leb (negsuc a) (pos b) = true
line_leb (negsuc a) (negsuc b) = leb b a

unfoldable pub insert_by_line : BatchRow → List BatchRow → List BatchRow
insert_by_line r [] = r ∷ []
insert_by_line r (s ∷ rs) = if line_leb r.line s.line then r ∷ s ∷ rs else s ∷ insert_by_line r rs

unfoldable pub order_by_line : List BatchRow → List BatchRow
order_by_line [] = []
order_by_line (r ∷ rs) = insert_by_line r (order_by_line rs)

unfoldable pub get_batch_rows_by_batch_id_sorted : ℕ → Db → List BatchRow
get_batch_rows_by_batch_id_sorted i db = order_by_line (select (in_batch i) db.batchrows)

unfoldable pub get_processed_batch_rows_by_batch_id_sorted : ℕ → Db → List BatchRow
get_processed_batch_rows_by_batch_id_sorted i db =
    order_by_line (select (λ r. (r.batch == i) && is_processed r.status) db.batchrows)

-- A row of `FetchBlockOfRows`: the row joined with its batch.
pub record FetchBlockOfRowsRow : Type 0 where
  pub app : String
  pub status : StatusEnum
  pub op : String
  pub context : String
  pub batch : ℕ
  pub rowid : ℕ
  pub line : ℤ
  pub input : String

-- The join yields one row for each batch row whose batch is there and not in `wait`. A row locked
-- by another session is passed over.
unfoldable pub join_rows :
    (ℕ → Bool) → StatusEnum → List Batch → List BatchRow → List FetchBlockOfRowsRow
join_rows locked status batches [] = []
join_rows locked status batches (r ∷ rs) =
    let rest = join_rows locked status batches rs in
    elim (find_if (has_id r.batch) batches) [
      | none ↦ rest
      | some b ↦
          if status_eq r.status status && not (status_eq b.status wait) && not (locked r.rowid)
          then record {
            app = b.app;
            status = b.status;
            op = b.op;
            context = b.context;
            batch = r.batch;
            rowid = r.rowid;
            line = r.line;
            input = r.input;
          }
            ∷ rest
          else rest
    ]

abbrev pub fetch_block_of_rows : (ℕ → Bool) → StatusEnum → ℕ → Db → List FetchBlockOfRowsRow
fetch_block_of_rows locked status limit db =
    take limit (join_rows locked status db.batches db.batchrows)

abbrev is_unsummarized : List BatchRow → Batch → Bool
is_unsummarized rows b =
    status_eq b.status inprog
    && elim b.doneat [ none ↦ true | some _ ↦ false ]
    && not (any_if (is_pending_in b.id) rows)

abbrev ids : List Batch → List ℕ
ids [] = []
ids (b ∷ bs) = b.id ∷ ids bs

unfoldable pub get_unsummarized_batches : Db → List ℕ
get_unsummarized_batches db = ids (select (is_unsummarized db.batchrows) db.batches)
