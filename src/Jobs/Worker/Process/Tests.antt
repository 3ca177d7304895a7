-- ===== src/Jobs/Worker/Process/Tests.antt =====
-- The processing of a row at concrete tables.
use alya.Prelude.{refl, some, none, true}
use alya.Prelude.Int.{ℤ, pos}
use alya.Jobs.Status.{inprog, success}
use alya.Jobs.Queries.{FetchBlockOfRowsRow}
use alya.Jobs.Machine.{Env, World, machine}
use alya.Jobs.Fixture.{a_world, a_batch, tables, an_env}
use alya.Jobs.Summary.{init_block_for, summarize_batch}
use alya.Jobs.Types.{new_json_str}
use alya.Jobs.Summary.Skips.{Untouched}
use alya.Jobs.Worker.Process.{
  recover, run_processor, update_slow_query_result, process_slow_query, process_row,
}
use alya.Jobs.Worker.Process.Steps.{Settles}
use alya.Jobs.Worker.Process.Unmarked.{slow_query_never_marked}

abbrev a_claimed_row : ℤ → FetchBlockOfRowsRow
a_claimed_row line = record {
  app = "crm";
  status = inprog;
  op = "load";
  context = "{}";
  batch = 7;
  rowid = 2;
  line = line;
  input = "{}";
}

-- A processor that panics.
abbrev panicking : Env
panicking = record an_env { do_batch_job = λ key context line input n. none }

abbrev slow_env : Env
slow_env = record an_env { has_slow_query_processor = λ key. true }

slow_query_never_marked_example :
    let w' : World =
      record (process_row slow_env (a_claimed_row (pos 0)) (a_world (tables inprog inprog))).1 {
        pending = λ d. d;
      } in
    Untouched w' (summarize_batch slow_env 7 w').1
unfolding process_row recover process_slow_query init_block_for run_processor new_json_str
    update_slow_query_result machine
slow_query_never_marked_example =
    slow_query_never_marked slow_env (a_claimed_row (pos 0)) success
      (a_world (tables inprog inprog))
      (record (a_batch success) { doneat = some 1003; outputfiles = some "{}" }) refl refl refl
