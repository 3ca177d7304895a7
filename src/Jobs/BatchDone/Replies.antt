-- ===== src/Jobs/BatchDone/Replies.antt =====
-- The replies on a batch: the two ways to one, and the rows of one.
use alya.Prelude.{
  ℕ, ◌+◌, [], Option, some, none, String, true, false, ◌≡◌, refl, sym, arith, Option-cases,
  Bool-cases, inl, inr,
}
use mathlib.Core.Path.{subst}
use alya.Jobs.Status.{StatusEnum, is_final}
use alya.Jobs.Db.{Db, Batch}
use alya.Jobs.Batch.{int4}
use alya.Jobs.Queries.{get_batch_by_id, get_batch_rows_by_batch_id, fetch_batch_rows_for_batch_done}
use alya.Jobs.Machine.{Env, World, log_error, ok, status_key, machine}
use alya.Jobs.Cache.{status_string, scan_status, expiry_sec, update_status_in_redis}
use alya.Jobs.Cache.{get_if_there}
use alya.Jobs.BatchDone.{
  files_of, DoneReply, convert_rows, final_reply, reply_for, done_from_db, done_from_cache,
  batch_done,
}
use alya.Jobs.BatchDone.Rows.{Result-cases, Outputs, convert_rows_lem}

module _ (env : Env) where
  -- What a reply of this status says of the batch: if the status is final, every row of the batch
  -- with its outcome, its result and its messages, and the output files and counts of the batch.
  pub record Reports (i : ℕ) (b : Batch) (d : Db) (o : Option StatusEnum) (r : DoneReply)
      : Type 0 where
    pub rows :
        (s : StatusEnum)
        → o ≡ some s
        → is_final s ≡ true
        → Outputs env (get_batch_rows_by_batch_id i d) (r.1)
          × (r.2 ≡ files_of env b.outputfiles)
          × (r.3 ≡ int4 b.nsuccess)
          × (r.4 ≡ int4 b.nfailed)
          × (r.5 ≡ int4 b.naborted)
    pub nothing : (s : StatusEnum) → o ≡ some s → is_final s ≡ false → r.1 ≡ []

  final_reply_ok :
      (i : ℕ) (b : Batch) (st : String) (w : World) (r : DoneReply)
      → (final_reply env i b st w).0 ≡ ok r
      → (r.0 ≡ st)
        × Outputs env (get_batch_rows_by_batch_id i w.db) (r.1)
        × (r.2 ≡ files_of env b.outputfiles)
        × (r.3 ≡ int4 b.nsuccess)
        × (r.4 ≡ int4 b.nfailed)
        × (r.5 ≡ int4 b.naborted)
  unfolding final_reply machine
  final_reply_ok i b st w r h =
      let next : World = record w { calls = w.calls + 1 } in
      let rows = fetch_batch_rows_for_batch_done i w.db in
      elim (Result-cases (convert_rows env rows next).0) [
        | inl (x, q) ↦ absurd (ground arith)
        | inr (os, q) ↦
            let same : os ≡ r.1 = ground arith in
            (
              ground arith,
              subst (Outputs env rows) same (convert_rows_lem env rows next os q),
              ground arith,
              ground arith,
              ground arith,
              ground arith,
            )
      ]

  reply_ok :
      (i : ℕ) (b : Batch) (st : String) (o : Option StatusEnum) (w : World) (r : DoneReply)
      → (reply_for env i b st o w).0 ≡ ok r
      → (r.0 ≡ st) × Reports i b w.db o r
  unfolding machine
  reply_ok i b st none w r h = (ground arith, record { rows = λ s e f. cc; nothing = λ s e f. cc })
  reply_ok i b st (some x) w r h = elim (Bool-cases (is_final x)) [
    | inl e ↦
        let run : (final_reply env i b st w).0 ≡ ok r = ground arith in
        let (text, all, files, n0, n1, n2) = final_reply_ok i b st w r run in
        (
          text,
          record {
            rows = λ s k f. (all, files, n0, n1, n2);
            nothing = λ s k f. absurd (ground arith);
          },
        )
    | inr e ↦ (
      ground arith,
      record { rows = λ s k f. absurd (ground arith); nothing = λ s k f. ground arith },
    )
  ]

  -- The reply is made after the look-ups, on the tables as they were.
  pub batch_done_reads :
      (id : String) (i : ℕ) (b : Batch) (w : World) (r : DoneReply)
      → env.parse_uuid id ≡ some i
      → get_batch_by_id i w.db ≡ some b
      → (batch_done env id w).0 ≡ ok r
      → (st : String) × (v : World) × (v.db ≡ w.db)
        × ((reply_for env i b st (scan_status st) v).0 ≡ ok r)
  unfolding batch_done done_from_db done_from_cache get_if_there machine
  batch_done_reads id i b w r p found h = elim (Option-cases (w.redis.get (status_key id))) [
    | inl e ↦
        let before : World = record w { calls = w.calls + 2 } in
        let put =
          log_error
            (update_status_in_redis env i b.status (expiry_sec env.cache_dur_sec b.status)) in
        let v = (put before).1 in
        let run : (reply_for env i b (status_string b.status) (scan_status (status_string b.status))
              v).0
            ≡ ok r =
          ground arith in
        (status_string b.status, v, ground arith, run)
    | inr (entry, e) ↦
        let v : World = record w { calls = w.calls + 2 } in
        let run : (reply_for env i b (entry.0) (scan_status (entry.0)) v).0 ≡ ok r = ground arith in
        (entry.0, v, refl, run)
  ]

  -- A reply on a batch tells of it, if its status is final, every row of the batch with its outcome,
  -- its result and its messages, and the output files and the counts of the batch; if its status is
  -- one of the others, it tells no row.
  pub batch_done_ok :
      (id : String) (i : ℕ) (b : Batch) (w : World) (r : DoneReply)
      → env.parse_uuid id ≡ some i
      → get_batch_by_id i w.db ≡ some b
      → (batch_done env id w).0 ≡ ok r
      → Reports i b w.db (scan_status (r.0)) r
  batch_done_ok id i b w r p found h =
      let (st, v, same, run) = batch_done_reads id i b w r p found h in
      let (text, reports) = reply_ok i b st (scan_status st) v r run in
      subst (λ d. Reports i b d (scan_status (r.0)) r) same
        (subst (λ t. Reports i b v.db (scan_status t) r) (sym text) reports)
