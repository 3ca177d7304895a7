-- ===== src/Jobs/Queries/Writes.antt =====
-- The INSERT and UPDATE statements.
use alya.Prelude.{
  ℕ, ◌+◌, List, [], ◌∷◌, ◌++◌, Option, some, none, String, Bool, ◌&&◌, ◌==◌, if◌then◌else◌, str_eq,
  length, any_if, update_if, contains,
}
use alya.Prelude.Int.{ℤ}
use alya.Jobs.Status.{StatusEnum, queued, inprog, status_eq}
use alya.Jobs.Db.{Batch, BatchRow, Db}
use alya.Jobs.Queries.Tests.{has_id, row_in, is_pending_in}

-- `none` is a violation of the primary key.
abbrev pub insert_into_batches : ℕ → String → String → String → StatusEnum → ℕ → Db → Option Db
insert_into_batches id app op context status reqat db =
    if any_if (has_id id) db.batches
    then none
    else some (record db {
      batches =
          db.batches
          ++ record {
            id = id;
            app = app;
            op = op;
            context = context;
            status = status;
            reqat = reqat;
            doneat = none;
            outputfiles = none;
            nsuccess = none;
            nfailed = none;
            naborted = none;
          }
            ∷ [];
    })

abbrev pub new_row : ℕ → ℕ → ℤ → String → ℕ → BatchRow
new_row rowid batch line input reqat = record {
  rowid = rowid;
  batch = batch;
  line = line;
  input = input;
  status = queued;
  reqat = reqat;
  doneat = none;
  res = none;
  blobrows = none;
  messages = none;
  doneby = none;
}

abbrev pub insert_into_batch_rows : ℕ → ℤ → String → ℕ → Db → Db
insert_into_batch_rows batch line input reqat db = record db {
  batchrows = db.batchrows ++ new_row db.next_rowid batch line input reqat ∷ [];
  next_rowid = db.next_rowid + 1;
}

-- The rows of the four arrays, numbered from the sequence on.
unfoldable pub numbered_rows : ℕ → ℕ → List (ℤ × String × ℕ) → List BatchRow
numbered_rows rowid batch [] = []
numbered_rows rowid batch ((line, input, reqat) ∷ rest) =
    new_row rowid batch line input reqat ∷ numbered_rows (rowid + 1) batch rest

unfoldable pub bulk_insert_into_batch_rows : ℕ → List (ℤ × String × ℕ) → Db → Db
bulk_insert_into_batch_rows batch rows db = record db {
  batchrows = db.batchrows ++ numbered_rows db.next_rowid batch rows;
  next_rowid = db.next_rowid + length rows;
}

abbrev pub update_batches : (Batch → Bool) → (Batch → Batch) → Db → Db
update_batches p f db = record db { batches = update_if p f db.batches }

abbrev pub update_batchrows : (BatchRow → Bool) → (BatchRow → BatchRow) → Db → Db
update_batchrows p f db = record db { batchrows = update_if p f db.batchrows }

abbrev pub update_batch_rows_status : StatusEnum → List ℕ → Db → Db
update_batch_rows_status status rowids =
    update_batchrows (row_in rowids) (λ r. record r { status = status })

abbrev pub update_batch_rows_status_bulk : List ℕ → StatusEnum → Db → Db
update_batch_rows_status_bulk rowids status =
    update_batchrows (row_in rowids) (λ r. record r { status = status })

abbrev pub update_batches_status_bulk : List ℕ → StatusEnum → Db → Db
update_batches_status_bulk batch_ids status =
    update_batches (λ b. contains b.id batch_ids && status_eq b.status queued)
      (λ b. record b { status = status })

abbrev pub update_batch_summary :
    ℕ → StatusEnum → Option ℕ → Option String → Option ℤ → Option ℤ → Option ℤ → Db → Db
update_batch_summary id status doneat outputfiles nsuccess nfailed naborted =
    update_batches (has_id id) (λ b. record b {
      status = status;
      doneat = doneat;
      outputfiles = outputfiles;
      nsuccess = nsuccess;
      nfailed = nfailed;
      naborted = naborted;
    })

-- The statement sets the same columns as `update_batch_summary`.
abbrev pub update_batch_status :
    ℕ → StatusEnum → Option ℕ → Option String → Option ℤ → Option ℤ → Option ℤ → Db → Db
update_batch_status id status doneat outputfiles nsuccess nfailed naborted =
    update_batches (has_id id) (λ b. record b {
      status = status;
      doneat = doneat;
      outputfiles = outputfiles;
      nsuccess = nsuccess;
      nfailed = nfailed;
      naborted = naborted;
    })

abbrev pub update_batch_result : Option String → StatusEnum → Option ℕ → ℕ → Db → Db
update_batch_result outputfiles status doneat id =
    update_batches (has_id id)
      (λ b. record b { outputfiles = outputfiles; status = status; doneat = doneat })

abbrev pub update_batch_rows_batch_job :
    ℕ
    → StatusEnum
    → Option ℕ
    → Option String
    → Option String
    → Option String
    → Option String
    → Db
    → Db
update_batch_rows_batch_job rowid status doneat res blobrows messages doneby =
    update_batchrows (λ r. r.rowid == rowid)
      (λ r. record r {
        status = status;
        doneat = doneat;
        res = res;
        blobrows = blobrows;
        messages = messages;
        doneby = doneby;
      })

abbrev pub update_batch_rows_slow_query :
    ℕ → StatusEnum → Option ℕ → Option String → Option String → Option String → Db → Db
update_batch_rows_slow_query rowid status doneat res messages doneby =
    update_batchrows (λ r. r.rowid == rowid)
      (λ r. record r {
        status = status;
        doneat = doneat;
        res = res;
        messages = messages;
        doneby = doneby;
      })

-- The rows of the subquery: pending rows of the batch, if the batch has this app (and op).
abbrev pub update_batch_rows_by_batch_app :
    StatusEnum → Option ℕ → Option String → ℕ → String → Db → Db
update_batch_rows_by_batch_app status doneat messages id app db =
    update_batchrows
      (λ r. is_pending_in id r && any_if (λ b. (b.id == id) && str_eq b.app app) db.batches)
      (λ r. record r { status = status; doneat = doneat; messages = messages }) db

abbrev pub update_batch_rows_by_batch_app_op :
    StatusEnum → Option ℕ → Option String → ℕ → String → String → Db → Db
update_batch_rows_by_batch_app_op status doneat messages id app op db =
    update_batchrows
      (λ r.
        is_pending_in id r
        && any_if (λ b. (b.id == id) && str_eq b.app app && str_eq b.op op) db.batches)
      (λ r. record r { status = status; doneat = doneat; messages = messages }) db

abbrev pub reset_rows_to_queued : List ℕ → Db → Db
reset_rows_to_queued rowids =
    update_batchrows (λ r. row_in rowids r && status_eq r.status inprog)
      (λ r. record r { status = queued })
