-- ===== src/Jobs/SlowQueryDone/Replies.antt =====
-- What the caller of a slow query is told.
use alya.Prelude.{
  ℕ, ◌+◌, ◌*◌, ◌∙◌, Option-cases, inl, inr, some, none, String, true, false, ◌≡◌, arith, refl, sym,
  str_eq, str_eq_refl,
}
use mathlib.Core.Path.{subst}
use alya.Jobs.Status.{
  StatusEnum, queued, inprog, success, failed, aborted, wait, try_later, get_batch_status,
}
use alya.Jobs.Types.{Files, new_json_str}
use alya.Jobs.Queries.{get_batch_status_and_output_files}
use alya.Jobs.Cache.{status_string, scan_status}
use alya.Jobs.Machine.{
  Env, World, ok, err, status_key, result_key, output_files_key, redis_nil, machine,
}
use alya.Jobs.SlowQuery.{slow_query_abort}
use alya.Jobs.Cache.{get_if_there}
use alya.Jobs.SlowQueryDone.{
  reply_expiry, get_batch_details, pipeline, update_status_and_output_files_data_in_redis,
  QueryReply, query_done_from_db, query_done_from_cache, slow_query_done,
}

module _ (env : Env) where
  from_db_try_later :
      (i : ℕ) (w : World) (r : QueryReply) → (query_done_from_db env i w).0 ≡ ok r → r.0 ≡ try_later
  unfolding query_done_from_db machine
  from_db_try_later i w r h = ground arith

  -- Where Redis has no status of the query, the caller is told to try later, whatever the tables
  -- say of the query: the scan of the status that was read fails, and its error is not looked at.
  pub slow_query_done_try_later :
      (req_id : String) (w : World) (r : QueryReply)
      → w.redis.get (status_key req_id) ≡ none
      → (slow_query_done env req_id w).0 ≡ ok r
      → r.0 ≡ try_later
  unfolding slow_query_done get_if_there machine
  slow_query_done_try_later req_id w r e h = elim (Option-cases (env.parse_uuid req_id)) [
    | inl none_here ↦ absurd (ground arith)
    | inr (i, found) ↦
        let next : World = record w { calls = w.calls + 1 } in
        let run : (query_done_from_db env i next).0 ≡ ok r = ground arith in
        from_db_try_later i next r run
  ]

  abort_sets_status :
      (req_id : String) (i : ℕ) (w : World)
      → env.parse_uuid req_id ≡ some i
      → env.fails (w.calls + 6) ≡ false
      → (slow_query_abort env req_id w).0 ≡ ok tt
      → let w' = (slow_query_abort env req_id w).1 in
        (w'.redis.get (status_key req_id) ≡ some ("aborted", 100 * env.cache_dur_sec))
        × (w'.redis.get (result_key req_id) ≡ w.redis.get (result_key req_id))
  unfolding slow_query_abort machine
  abort_sets_status req_id i w p f h = let same = str_eq_refl req_id in (ground arith, ground arith)

  done_needs_result :
      (req_id : String) (i : ℕ) (w : World) (v : String × ℕ)
      → env.parse_uuid req_id ≡ some i
      → env.fails w.calls ≡ false
      → env.fails (w.calls + 1) ≡ false
      → w.redis.get (status_key req_id) ≡ some v
      → w.redis.get (result_key req_id) ≡ none
      → (slow_query_done env req_id w).0 ≡ err redis_nil
  unfolding slow_query_done query_done_from_cache get_if_there machine
  done_needs_result req_id i w v p f0 f1 s r = ground arith

  -- Where no call fails: after an abort that succeeds, the call that asks for the result fails with
  -- the error for an absent key, if no result was in Redis.
  pub slow_query_abort-slow_query_done :
      (req_id : String) (i : ℕ) (w : World)
      → ((n : ℕ) → env.fails n ≡ false)
      → env.parse_uuid req_id ≡ some i
      → w.redis.get (result_key req_id) ≡ none
      → (slow_query_abort env req_id w).0 ≡ ok tt
      → (slow_query_done env req_id (slow_query_abort env req_id w).1).0 ≡ err redis_nil
  slow_query_abort-slow_query_done req_id i w f p e h =
      let (set, kept) = abort_sets_status req_id i w p (f (w.calls + 6)) h in
      done_needs_result req_id i (slow_query_abort env req_id w).1 _ p (f _) (f _) set (kept ∙ e)

scan-status_string : (s : StatusEnum) → scan_status (status_string s) ≡ some s
unfolding scan_status
scan-status_string queued = refl
scan-status_string inprog = refl
scan-status_string success = refl
scan-status_string failed = refl
scan-status_string aborted = refl
scan-status_string wait = refl

module _ (env : Env) where
  details_cached :
      (i : ℕ) (w : World) (s : StatusEnum) (files res t : String) (fs : Files)
      → env.fails w.calls ≡ false
      → env.fails (w.calls + 1) ≡ false
      → get_batch_status_and_output_files i w.db ≡ some (s, some files, some res)
      → str_eq res "" ≡ false
      → str_eq files "" ≡ false
      → str_eq files "null" ≡ false
      → env.fits_struct res ≡ true
      → env.unmarshal_files files ≡ some fs
      → env.marshal_files fs ≡ some t
      → let r = (query_done_from_db env i w).1.redis in
        let d = reply_expiry env.cache_dur_sec try_later in
        (r.get (status_key (env.uuid_string i)) ≡ some (status_string s, d))
        × (r.get (result_key (env.uuid_string i)) ≡ some (res, d))
        × (r.get (output_files_key (env.uuid_string i)) ≡ some (t, d))
  unfolding query_done_from_db get_batch_details update_status_and_output_files_data_in_redis
      pipeline machine
  details_cached i w s files res t fs f0 f1 found r0 c0 n0 fits u m =
      let same = str_eq_refl (env.uuid_string i) in (ground arith, ground arith, ground arith)

  reply_from_cache :
      (id : String) (i : ℕ) (w : World) (s : StatusEnum) (res t : String) (fs : Files) (d : ℕ)
      → env.parse_uuid id ≡ some i
      → env.fails w.calls ≡ false
      → env.fails (w.calls + 1) ≡ false
      → env.fails (w.calls + 2) ≡ false
      → w.redis.get (status_key id) ≡ some (status_string s, d)
      → w.redis.get (result_key id) ≡ some (res, d)
      → w.redis.get (output_files_key id) ≡ some (t, d)
      → str_eq res "" ≡ false
      → env.is_json res ≡ true
      → str_eq t "null" ≡ false
      → env.unmarshal_files t ≡ some fs
      → (slow_query_done env id w).0
        ≡ ok (get_batch_status s, record { value = res; valid = true }, some fs)
  unfolding slow_query_done query_done_from_cache get_if_there new_json_str machine
  reply_from_cache id i w s res t fs d p f0 f1 f2 a b c r0 js n0 u =
      let known = scan-status_string s in ground arith

  missed :
      (id : String) (i : ℕ) (w : World)
      → env.parse_uuid id ≡ some i
      → env.fails w.calls ≡ false
      → w.redis.get (status_key id) ≡ none
      → slow_query_done env id w ≡ query_done_from_db env i (record w { calls = w.calls + 1 })
  unfolding slow_query_done get_if_there machine
  missed id i w p f e = ground arith

  -- Where no call fails, a finished slow query whose status is not yet in Redis: the first call puts
  -- it there, and the second call tells its status, its result and its output files. The JSON of the
  -- files reads back as them, is not null, and the result is JSON.
  pub slow_query_done_second :
      (i : ℕ) (w : World) (s : StatusEnum) (files res t : String) (fs : Files)
      → ((n : ℕ) → env.fails n ≡ false)
      → env.parse_uuid (env.uuid_string i) ≡ some i
      → w.redis.get (status_key (env.uuid_string i)) ≡ none
      → get_batch_status_and_output_files i w.db ≡ some (s, some files, some res)
      → str_eq res "" ≡ false
      → str_eq files "" ≡ false
      → str_eq files "null" ≡ false
      → env.fits_struct res ≡ true
      → env.is_json res ≡ true
      → env.unmarshal_files files ≡ some fs
      → env.marshal_files fs ≡ some t
      → str_eq t "null" ≡ false
      → env.unmarshal_files t ≡ some fs
      → let w' = (slow_query_done env (env.uuid_string i) w).1 in
        (slow_query_done env (env.uuid_string i) w').0
        ≡ ok (get_batch_status s, record { value = res; valid = true }, some fs)
  slow_query_done_second i w s files res t fs f p e found r0 c0 n0 fits js u m t0 back =
      let id = env.uuid_string i in
      let next : World = record w { calls = w.calls + 1 } in
      let (a, b, c) = details_cached i next s files res t fs (f _) (f _) found r0 c0 n0 fits u m in
      subst
        (λ q.
          (slow_query_done env id (q.1)).0
          ≡ ok (get_batch_status s, record { value = res; valid = true }, some fs))
        (sym (missed id i w p (f w.calls) e))
        (reply_from_cache id i (query_done_from_db env i next).1 s res t fs _ p (f _) (f _) (f _) a
          b c r0 js t0 back)
