-- ===== src/Jobs/Db.antt =====
-- The two tables (jobs/pg/batchsqlc/models.go; jobs/pg/migrations). A column that can be NULL is an
-- `Option`. A UUID and a timestamp are numbers. The columns `inputfile` and `created_at` are never
-- read by the service and are left out.
use alya.Prelude.{ℕ, Option, String, List}
use alya.Prelude.Int.{ℤ}
use alya.Jobs.Status.{StatusEnum}

pub record Batch : Type 0 where
  pub id : ℕ
  pub app : String
  pub op : String
  pub context : String
  pub status : StatusEnum
  pub reqat : ℕ
  pub doneat : Option ℕ
  pub outputfiles : Option String
  pub nsuccess : Option ℤ  -- int4
  pub nfailed : Option ℤ  -- int4
  pub naborted : Option ℤ  -- int4

pub record BatchRow : Type 0 where
  pub rowid : ℕ
  pub batch : ℕ
  pub line : ℤ  -- int4
  pub input : String
  pub status : StatusEnum
  pub reqat : ℕ
  pub doneat : Option ℕ
  pub res : Option String
  pub blobrows : Option String
  pub messages : Option String
  pub doneby : Option String

-- `next_rowid` is the identity sequence of `batchrows.rowid`.
pub record Db : Type 0 where
  pub batches : List Batch
  pub batchrows : List BatchRow
  pub next_rowid : ℕ
