-- ===== src/Jobs/BatchDone/Still.antt =====
-- The call leaves the tables alone.
use alya.Prelude.{ℕ, List, [], ◌∷◌, Option, some, none, String}
use alya.Jobs.Status.{StatusEnum}
use alya.Jobs.Db.{Batch, BatchRow}
use alya.Jobs.Machine.{Env, Inert, Inert-bind, inert_rules, pure-Inert, or_throw-Inert}
use alya.Jobs.SlowQueryDone.Still.{get_if_there-Inert}
use alya.Jobs.BatchDone.{
  convert_rows, final_reply, reply_for, done_from_db, done_from_cache, batch_done,
}

module _ (env : Env) where
  convert_rows-Inert : (rows : List BatchRow) → Inert (convert_rows env rows)
  unfolding convert_rows
  convert_rows-Inert [] = pure-Inert []
  convert_rows-Inert (r ∷ rs) =
      Inert-bind (or_throw-Inert _ _) λ _.
        Inert-bind (or_throw-Inert _ _) λ _. Inert-bind (convert_rows-Inert rs) λ _. pure-Inert _

  reply_for-Inert :
      (i : ℕ) (b : Batch) (st : String) (o : Option StatusEnum) → Inert (reply_for env i b st o)
  unfolding final_reply
  reply_for-Inert i b st none = pure-Inert _
  reply_for-Inert i b st (some s) = search (inert_rules, convert_rows-Inert, env) depth 40

  done_from_db-Inert : (id : String) → Inert (done_from_db env id)
  unfolding done_from_db
  done_from_db-Inert id = search (inert_rules, reply_for-Inert, env) depth 40

  done_from_cache-Inert : (id s : String) → Inert (done_from_cache env id s)
  unfolding done_from_cache
  done_from_cache-Inert id s = search (inert_rules, reply_for-Inert, env) depth 40

  from_either-Inert :
      (id : String) (o : Option String)
      → Inert (elim o [ some s ↦ done_from_cache env id s | none ↦ done_from_db env id ])
  from_either-Inert id none = done_from_db-Inert id
  from_either-Inert id (some s) = done_from_cache-Inert id s

  pub batch_done-Inert : (id : String) → Inert (batch_done env id)
  unfolding batch_done
  batch_done-Inert id = search (inert_rules, get_if_there-Inert, from_either-Inert, env) depth 40
