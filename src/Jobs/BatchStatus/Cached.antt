-- ===== src/Jobs/BatchStatus/Cached.antt =====
-- The reply from the table and the reply from the cache.
use alya.Prelude.{ℕ, ◌+◌, some, none, String, ◌≡◌, arith, str_eq_refl, false}
use alya.Jobs.Types.{BatchSummary}
use alya.Jobs.Machine.{Env, World, ok, summary_key, machine}
use alya.Jobs.BatchStatus.{StatusReply, cached, status_from_db, status_from_cache, batch_status}

abbrev summary_of : StatusReply → BatchSummary
summary_of r = record {
  status = r.0;
  output_files = r.1;
  nsuccess = r.2;
  nfailed = r.3;
  naborted = r.4;
}

module _ (env : Env) where
  from_db_caches :
      (i : ℕ) (w : World) (r : StatusReply) (v : String × ℕ)
      → w.redis.get (summary_key (env.uuid_string i)) ≡ none
      → (status_from_db env i w).0 ≡ ok r
      → (status_from_db env i w).1.redis.get (summary_key (env.uuid_string i)) ≡ some v
      → env.marshal_summary (summary_of r) ≡ some (v.0)
  unfolding status_from_db machine
  from_db_caches i w r v e h k = let same = str_eq_refl (env.uuid_string i) in ground arith

  from_cache :
      (t : String) (w : World) (r : StatusReply)
      → env.unmarshal_summary t ≡ some (summary_of r)
      → (status_from_cache env t w).0 ≡ ok r
  unfolding status_from_cache machine
  from_cache t w r h = ground arith

  -- Where the JSON of a summary reads back as that summary: a reply that was not in the cache, and
  -- was put there, is the reply of the next call too, if that call reaches Redis.
  pub batch_status_cached :
      (i : ℕ) (w : World) (r : StatusReply) (v : String × ℕ)
      → env.parse_uuid (env.uuid_string i) ≡ some i
      → ((s : BatchSummary) (t : String)
          → env.marshal_summary s ≡ some t
          → env.unmarshal_summary t ≡ some s)
      → w.redis.get (summary_key (env.uuid_string i)) ≡ none
      → (batch_status env (env.uuid_string i) w).0 ≡ ok r
      → let w' = (batch_status env (env.uuid_string i) w).1 in
        w'.redis.get (summary_key (env.uuid_string i)) ≡ some v
        → env.fails w'.calls ≡ false
        → (batch_status env (env.uuid_string i) w').0 ≡ ok r
  unfolding batch_status cached machine
  batch_status_cached i w r v hp rt e h k f =
      let next : World = record w { calls = w.calls + 1 } in
      let run : (status_from_db env i next).0 ≡ ok r = ground arith in
      let kept : (status_from_db env i next).1.redis.get (summary_key (env.uuid_string i))
          ≡ some v =
        ground arith in
      let json = rt (summary_of r) (v.0) (from_db_caches i next r v e run kept) in
      let w' = (batch_status env (env.uuid_string i) w).1 in
      let again = from_cache (v.0) (record w' { calls = w'.calls + 1 }) r json in ground arith
