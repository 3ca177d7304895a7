-- ===== src/Jobs/Recovery/Dead.antt =====
-- The recovery of one instance's rows.
use alya.Prelude.{
  ℕ, ◌+◌, List, [], ◌∷◌, ap, update_if, ◌&&◌, some, String, ◌≡◌, refl, arith, length,
}
use alya.Jobs.Queries.{reset_rows_to_queued, row_in}
use alya.Jobs.Db.{BatchRow, Db}
use alya.Jobs.Status.{queued, inprog, status_eq}
use alya.Jobs.Batch.{is_nil-nil}
use alya.Jobs.Machine.{Env, World, ok, rows_key, heartbeat_key, smembers, del, key_exists, machine}
use alya.Jobs.Recovery.{reset_rows, parse_row_ids, recover_rows_from_dead_instance, recover_if_dead}

reset_none : (d : Db) → reset_rows_to_queued [] d ≡ d
reset_none d = ap (λ rs. record d { batchrows = rs }) (go d.batchrows)
  where
    go :
        (rs : List BatchRow)
        → update_if
            (λ r. row_in [] r && status_eq r.status inprog)
            (λ r. record r { status = queued })
            rs
          ≡ rs
    go [] = refl
    go (r ∷ rs) = ap (λ ss. r ∷ ss) (go rs)

module _ (env : Env) where
  -- An instance whose heartbeat is there is left alone: its rows are not queued again, and Redis
  -- stays as it is.
  pub recover_if_dead_alive :
      (id : String) (v : String × ℕ) (w : World)
      → w.redis.get (heartbeat_key id) ≡ some v
      → ((recover_if_dead env id w).1.db ≡ w.db) × ((recover_if_dead env id w).1.redis ≡ w.redis)
  unfolding recover_if_dead key_exists machine
  recover_if_dead_alive id v w h = (ground arith, ground arith)

  reset_rows_ok :
      (ids : List ℕ) (w : World)
      → (reset_rows env ids w).0 ≡ ok tt
      → (reset_rows env ids w).1.db ≡ reset_rows_to_queued ids w.db
  unfolding reset_rows machine
  reset_rows_ok ids w h = ground arith

  -- A successful recovery of an instance's rows queues those of its rows that are in progress, and
  -- answers how many rows it was processing.
  pub recover_rows_ok :
      (id : String) (w : World) (n : ℕ)
      → (recover_rows_from_dead_instance env id w).0 ≡ ok n
      → let ids = parse_row_ids env (w.redis.members (rows_key id)) in
        ((recover_rows_from_dead_instance env id w).1.db ≡ reset_rows_to_queued ids w.db)
        × (n ≡ length ids)
  unfolding recover_rows_from_dead_instance smembers del machine
  recover_rows_ok id w n h =
      let strs = w.redis.members (rows_key id) in
      let next = record w { calls = w.calls + 1 } in
      let none_left = reset_none w.db in
      let run = reset_rows_ok (parse_row_ids env strs) next in
      let e1 = is_nil-nil strs in
      let e2 = is_nil-nil (parse_row_ids env strs) in (ground arith, ground arith)
