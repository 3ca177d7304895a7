-- ===== src/Jobs/BatchDone/Cached.antt =====
-- The reply from the table and the reply with the status from the cache.
use alya.Prelude.{
  ℕ, ◌+◌, List, Option, some, none, String, false, ◌≡◌, refl, sym, ap, ◌∙◌, arith, str_eq_refl,
  Bool-cases, inl, inr,
}
use mathlib.Core.Path.{subst}
use alya.Jobs.Status.{StatusEnum, is_final}
use alya.Jobs.Db.{Batch}
use alya.Jobs.Batch.{int4}
use alya.Jobs.Queries.{get_batch_by_id, fetch_batch_rows_for_batch_done}
use alya.Jobs.Machine.{Env, World, Result, log_error, ok, err, status_key, machine}
use alya.Jobs.Cache.{status_string, scan_status, expiry_sec, update_status_in_redis}
use alya.Jobs.Cache.{get_if_there}
use alya.Jobs.BatchDone.{
  files_of, BatchOutput, DoneReply, convert_rows, final_reply, reply_for, done_from_db,
  done_from_cache, batch_done,
}
use alya.Jobs.BatchDone.Rows.{Result-cases, convert_rows_still, convert_rows_same}

module _ (env : Env) where
  reply_still :
      (i : ℕ) (b : Batch) (s : String) (o : Option StatusEnum) (w : World)
      → let w' = (reply_for env i b s o w).1 in (w'.db ≡ w.db) × (w'.redis ≡ w.redis)
  unfolding final_reply machine
  reply_still i b s none w = (refl, refl)
  reply_still i b s (some x) w =
      let still =
        convert_rows_still env (fetch_batch_rows_for_batch_done i w.db)
          (record w { calls = w.calls + 1 }) in
      (ground arith, ground arith)

  after_rows : Batch → String → Result (List BatchOutput) → Result DoneReply
  after_rows b s (ok os) =
      ok (s, os, files_of env b.outputfiles, int4 b.nsuccess, int4 b.nfailed, int4 b.naborted)
  after_rows b s (err e) = err e

  final_reply_lem :
      (i : ℕ) (b : Batch) (s : String) (w : World)
      → env.fails w.calls ≡ false
      → (final_reply env i b s w).0
        ≡ after_rows b s
            (convert_rows env
              (fetch_batch_rows_for_batch_done i w.db)
              (record w { calls = w.calls + 1 })).0
  unfolding final_reply after_rows machine
  final_reply_lem i b s w f =
      let next : World = record w { calls = w.calls + 1 } in
      elim (Result-cases (convert_rows env (fetch_batch_rows_for_batch_done i w.db) next).0) [
        | inl (x, q) ↦ ground arith
        | inr (os, q) ↦ ground arith
      ]

  final_reply_same :
      (i : ℕ) (b : Batch) (s : String) (w v : World)
      → env.fails w.calls ≡ false
      → env.fails v.calls ≡ false
      → v.db ≡ w.db
      → (final_reply env i b s w).0 ≡ (final_reply env i b s v).0
  final_reply_same i b s w v f g e =
      let next : World = record v { calls = v.calls + 1 } in
      final_reply_lem i b s w f
      ∙ ap (after_rows b s) (convert_rows_same env _ _ next)
      ∙ ap (λ d. after_rows b s (convert_rows env (fetch_batch_rows_for_batch_done i d) next).0)
          (sym e)
      ∙ sym (final_reply_lem i b s v g)

  reply_same :
      (i : ℕ) (b : Batch) (s : String) (o : Option StatusEnum) (w v : World)
      → env.fails w.calls ≡ false
      → env.fails v.calls ≡ false
      → v.db ≡ w.db
      → (reply_for env i b s o w).0 ≡ (reply_for env i b s o v).0
  unfolding machine
  reply_same i b s none w v f g e = refl
  reply_same i b s (some x) w v f g e = elim (Bool-cases (is_final x)) [
    | inl h ↦ let same = final_reply_same i b s w v f g e in ground arith
    | inr h ↦ ground arith
  ]

  -- The world before the reply, where Redis has no status.
  abbrev looked_up : ℕ → Batch → World → World
  looked_up i b w =
      (log_error (update_status_in_redis env i b.status (expiry_sec env.cache_dur_sec b.status))
        (record w { calls = w.calls + 2 })).1

  missed :
      (i : ℕ) (b : Batch) (w : World)
      → ((n : ℕ) → env.fails n ≡ false)
      → env.parse_uuid (env.uuid_string i) ≡ some i
      → get_batch_by_id i w.db ≡ some b
      → w.redis.get (status_key (env.uuid_string i)) ≡ none
      → batch_done env (env.uuid_string i) w
        ≡ reply_for env i b
            (status_string b.status)
            (scan_status (status_string b.status))
            (looked_up i b w)
  unfolding batch_done done_from_db get_if_there machine
  missed i b w f p found e = let f0 = f w.calls in let f1 = f (w.calls + 1) in ground arith

  looked_up_lem :
      (i : ℕ) (b : Batch) (w : World)
      → env.fails (w.calls + 2) ≡ false
      → let v = looked_up i b w in
        (v.db ≡ w.db)
        × (v.redis.get (status_key (env.uuid_string i))
            ≡ some (status_string b.status, expiry_sec env.cache_dur_sec b.status))
  unfolding machine
  looked_up_lem i b w f = let same = str_eq_refl (env.uuid_string i) in (ground arith, ground arith)

  hit :
      (i : ℕ) (b : Batch) (w : World) (st : String) (ttl : ℕ)
      → env.fails w.calls ≡ false
      → env.fails (w.calls + 1) ≡ false
      → env.parse_uuid (env.uuid_string i) ≡ some i
      → get_batch_by_id i w.db ≡ some b
      → w.redis.get (status_key (env.uuid_string i)) ≡ some (st, ttl)
      → batch_done env (env.uuid_string i) w
        ≡ reply_for env i b st (scan_status st) (record w { calls = w.calls + 2 })
  unfolding batch_done done_from_cache get_if_there machine
  hit i b w st ttl f0 f1 p found e = ground arith

  -- Where no call fails: a reply made from the table, where Redis had no status of the batch, is
  -- again the reply of the next call, which finds the status in Redis.
  pub batch_done_cached :
      (i : ℕ) (b : Batch) (w : World)
      → ((n : ℕ) → env.fails n ≡ false)
      → env.parse_uuid (env.uuid_string i) ≡ some i
      → get_batch_by_id i w.db ≡ some b
      → w.redis.get (status_key (env.uuid_string i)) ≡ none
      → let (reply, w') = batch_done env (env.uuid_string i) w in
        (batch_done env (env.uuid_string i) w').0 ≡ reply
  batch_done_cached i b w f p found e =
      let st = status_string b.status in
      let v = looked_up i b w in
      let (same_db, cached) = looked_up_lem i b w (f _) in
      let u = (reply_for env i b st (scan_status st) v).1 in
      let (still_db, still_redis) = reply_still i b st (scan_status st) v in
      let in_redis : u.redis.get (status_key (env.uuid_string i))
          ≡ some (st, expiry_sec env.cache_dur_sec b.status) =
        ap (λ r. r.get (status_key (env.uuid_string i))) still_redis ∙ cached in
      let there : get_batch_by_id i u.db ≡ some b =
        ap (get_batch_by_id i) (still_db ∙ same_db) ∙ found in
      subst (λ q. (batch_done env (env.uuid_string i) (q.1)).0 ≡ q.0)
        (sym (missed i b w f p found e))
        (ap (λ q. q.0) (hit i b u st _ (f _) (f _) p there in_redis)
          ∙ reply_same i b st (scan_status st) (record u { calls = u.calls + 2 }) v (f _) (f _)
              (sym still_db))
