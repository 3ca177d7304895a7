-- ===== src/Jobs/BatchStatus/Still.antt =====
-- The reports on a batch leave the tables alone.
use alya.Prelude.{ℕ, Option, some, none, String, arith}
use alya.Jobs.Machine.{Env, M, Inert, inert_rules, pure-Inert, or_throw-Inert}
use alya.Jobs.BatchStatus.{
  cached, parse_output_files, status_from_db, status_from_cache, batch_status,
}

pub cached-Inert : {m : M String} → Inert m → Inert (cached m)
unfolding cached
cached-Inert {m} p = record { same = λ w. ground (arith, p.same w) }

module _ (env : Env) where
  parse_output_files-Inert : (o : Option String) → Inert (parse_output_files env o)
  parse_output_files-Inert none = pure-Inert _
  parse_output_files-Inert (some s) = or_throw-Inert _ _

  status_from_db-Inert : (i : ℕ) → Inert (status_from_db env i)
  unfolding status_from_db
  status_from_db-Inert i = search (inert_rules, parse_output_files-Inert, env) depth 40

  status_from_cache-Inert : (s : String) → Inert (status_from_cache env s)
  unfolding status_from_cache
  status_from_cache-Inert s = search (inert_rules) depth 40

  from_either-Inert :
      (i : ℕ) (o : Option String)
      → Inert (elim o [ some s ↦ status_from_cache env s | none ↦ status_from_db env i ])
  from_either-Inert i none = status_from_db-Inert i
  from_either-Inert i (some s) = status_from_cache-Inert s

  pub batch_status-Inert : (batch_id : String) → Inert (batch_status env batch_id)
  unfolding batch_status
  batch_status-Inert batch_id = search (inert_rules, cached-Inert, from_either-Inert, env) depth 40
