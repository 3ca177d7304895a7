-- ===== src/Jobs/SlowQuery/Kept.antt =====
-- What the statements keep, the calls on slow queries keep.
use alya.Prelude.{String}
use alya.Jobs.Types.{JsonStr}
use alya.Jobs.Db.{Db}
use alya.Jobs.Tables.Closed.{Growing, Closed}
use alya.Jobs.Machine.{Env, Preserves, preserves_rules}
use alya.Jobs.SlowQuery.{slow_query_submit, slow_query_abort}

module _ {P : Db → Type 0} (g : Growing P) (env : Env) where
  pub slow_query_submit-Preserves :
      (app op : String) (ctx input : JsonStr) → Preserves P (slow_query_submit env app op ctx input)
  unfolding slow_query_submit
  slow_query_submit-Preserves app op ctx input =
      search (preserves_rules, g.insert_batch-keeps, g.insert_row-keeps, env) depth 40

module _ {P : Db → Type 0} (c : Closed P) (env : Env) where
  pub slow_query_abort-Preserves : (req_id : String) → Preserves P (slow_query_abort env req_id)
  unfolding slow_query_abort
  slow_query_abort-Preserves req_id =
      search (preserves_rules, c.growing.update_batches-keeps, c.update_batchrows-keeps, env) depth
        40
