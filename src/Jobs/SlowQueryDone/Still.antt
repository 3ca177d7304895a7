-- ===== src/Jobs/SlowQueryDone/Still.antt =====
-- The call leaves the tables alone.
use alya.Prelude.{ℕ, List, Option, some, none, String, refl, arith, str_eq}
use alya.Jobs.Status.{StatusEnum}
use alya.Jobs.Machine.{
  Env, M, Key, Inert, Inert-bind, inert_rules, pure-Inert, or_throw-Inert, if-Inert, call-Inert,
}
use alya.Jobs.Cache.{get_if_there}
use alya.Jobs.SlowQueryDone.{
  zero_json_str, read_result, pipeline, unmarshal_output_files,
  update_status_and_output_files_data_in_redis, details_of, get_batch_details, query_done_from_db,
  query_done_from_cache, slow_query_done,
}

pub get_if_there-Inert : {m : M String} → Inert m → Inert (get_if_there m)
unfolding get_if_there
get_if_there-Inert {m} p = record { same = λ w. ground (arith, p.same w) }

module _ (env : Env) where
  pipeline-Inert : (kvs : List (Key × String)) (ttl : ℕ) → Inert (pipeline env kvs ttl)
  unfolding pipeline
  pipeline-Inert kvs ttl =
      Inert-bind (call-Inert env _) λ _. record { same = λ w. (refl, refl, refl) }

  unmarshal-Inert : (s : String) → Inert (unmarshal_output_files env s)
  unmarshal-Inert s =
      if-Inert (str_eq s "null") (pure-Inert none)
        (Inert-bind (or_throw-Inert _ _) λ _. pure-Inert _)

  details_of-Inert : (x : StatusEnum × Option String × Option String) → Inert (details_of env x)
  details_of-Inert (status, some files, some res) =
      if-Inert (str_eq res "") (pure-Inert (none, zero_json_str, none)) (
        if-Inert (str_eq files "") (pure-Inert (none, zero_json_str, none)) (
          Inert-bind (unmarshal-Inert files)
            λ output_files. pure-Inert (some status, read_result env res, output_files)))
  details_of-Inert (status, none, some res) = pure-Inert (none, zero_json_str, none)
  details_of-Inert (status, some files, none) = pure-Inert (none, zero_json_str, none)
  details_of-Inert (status, none, none) = pure-Inert (none, zero_json_str, none)

  query_done_from_db-Inert : (i : ℕ) → Inert (query_done_from_db env i)
  unfolding query_done_from_db get_batch_details update_status_and_output_files_data_in_redis
  query_done_from_db-Inert i = search (inert_rules, pipeline-Inert, details_of-Inert, env) depth 40

  query_done_from_cache-Inert : (id s : String) → Inert (query_done_from_cache env id s)
  unfolding query_done_from_cache
  query_done_from_cache-Inert id s = search (inert_rules, unmarshal-Inert, env) depth 40

  from_either-Inert :
      (id : String) (i : ℕ) (o : Option String)
      → Inert (elim o [ some s ↦ query_done_from_cache env id s | none ↦ query_done_from_db env i ])
  from_either-Inert id i none = query_done_from_db-Inert i
  from_either-Inert id i (some s) = query_done_from_cache-Inert id s

  pub slow_query_done-Inert : (id : String) → Inert (slow_query_done env id)
  unfolding slow_query_done
  slow_query_done-Inert id =
      search (inert_rules, get_if_there-Inert, from_either-Inert, env) depth 40
