-- ===== src/Jobs/Worker/Errors/Tests.antt =====
-- A block whose rows' processor panics.
use alya.Prelude.{none}
use alya.Prelude.Int.{pos}
use alya.Jobs.Status.{inprog}
use alya.Jobs.Queries.{FetchBlockOfRowsRow}
use alya.Jobs.Machine.{Env}
use alya.Jobs.Fixture.{an_env}

abbrev bad_row : FetchBlockOfRowsRow
bad_row = record {
  app = "crm";
  status = inprog;
  op = "load";
  context = "{}";
  batch = 7;
  rowid = 2;
  line = pos 2;
  input = "{}";
}

abbrev panicking_env : Env
panicking_env = record an_env { do_batch_job = λ key context line input n. none }
