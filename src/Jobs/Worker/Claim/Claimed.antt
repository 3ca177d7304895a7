-- ===== src/Jobs/Worker/Claim/Claimed.antt =====
-- What the claim of a block does to the tables.
use alya.Prelude.{
  ℕ, zero, suc, ◌≤◌, List, [], ◌∷◌, none, some, Bool, true, false, not, ◌&&◌, ◌≡◌, refl, sym, ap,
  arith, take, select, find_if, update_if, contains, length, length-take_le, All, All-map,
}
use mathlib.Core.Path.{subst}
use alya.Jobs.Status.{queued, inprog, wait, status_eq}
use alya.Jobs.Db.{Batch, BatchRow, Db}
use alya.Jobs.Queries.{
  has_id, row_in, join_rows, fetch_block_of_rows, update_batches_status_bulk, FetchBlockOfRowsRow,
}
use alya.Jobs.Rows.{rowids, contains-rowids}
use alya.Jobs.Tables.{IsValid}
use alya.Jobs.Machine.{Env, World, ok, machine, Atomic, Keeps, atomic_rules}
use alya.Jobs.Batch.{is_nil-nil}
use alya.Jobs.Worker.Claim.{row_ids, queued_batch_ids, check_context, mark_batches, claim_block}

-- A queued row whose batch is there and not held back, and that no other session has locked.
abbrev pub is_claimable : (ℕ → Bool) → List Batch → BatchRow → Bool
is_claimable locked batches r = elim (find_if (has_id r.batch) batches) [
  | none ↦ false
  | some b ↦ status_eq r.status queued && not (status_eq b.status wait) && not (locked r.rowid)
]

row_ids-join_rows :
    (locked : ℕ → Bool) (batches : List Batch) (rs : List BatchRow)
    → row_ids (join_rows locked queued batches rs)
      ≡ rowids (select (is_claimable locked batches) rs)
unfolding join_rows
row_ids-join_rows locked batches [] = refl
row_ids-join_rows locked batches (r ∷ rs) = ground (arith, row_ids-join_rows locked batches rs)

contains-take :
    (n x : ℕ) (rs : List FetchBlockOfRowsRow)
    → contains x (row_ids (take n rs)) ≡ true
    → contains x (row_ids rs) ≡ true
contains-take zero x rs h = absurd (ground arith)
contains-take (suc n) x [] h = h
contains-take (suc n) x (r ∷ rs) h = ground (arith, contains-take n x rs)

-- The update that the code leaves out where no batch is queued would change nothing.
mark_none :
    (bs : List Batch)
    → update_if
        (λ b. contains b.id [] && status_eq b.status queued)
        (λ b. record b { status = inprog })
        bs
      ≡ bs
mark_none [] = refl
mark_none (b ∷ bs) = ap (λ cs. b ∷ cs) (mark_none bs)

module _ (locked : ℕ → Bool) (n : ℕ) (d : Db) where
  claimed_claimable :
      IsValid d
      → All
          (λ r.
            row_in (row_ids (fetch_block_of_rows locked queued n d)) r ≡ true
            → is_claimable locked d.batches r ≡ true)
          d.batchrows
  claimed_claimable v =
      All-map
        (λ r e h. ground (
          arith,
          e,
          row_ids-join_rows locked d.batches d.batchrows,
          contains-take n r.rowid (join_rows locked queued d.batches d.batchrows),
        ))
        d.batchrows (contains-rowids (is_claimable locked d.batches) d.batchrows v.unique_rowids)

module _ (env : Env) (ctx_done locked : ℕ → Bool) where
  check_context-Keeps : Keeps (check_context env ctx_done locked)
  unfolding check_context
  check_context-Keeps = record { kept = λ w. refl }

  -- A successful claim returns at most the given number of rows; the rows it returns are marked in
  -- progress and no other row changes, each was queued, in a batch that is there and not held
  -- back, and locked by no other session; of the batches, those of the rows that were queued
  -- are in progress.
  pub claim_block_ok :
      (n : ℕ) (w : World) (rows : List FetchBlockOfRowsRow)
      → IsValid w.db
      → (claim_block env ctx_done locked n w).0 ≡ ok rows
      → let d = (claim_block env ctx_done locked n w).1.db in
        (length rows ≤ n)
        × (d.batchrows
            ≡ update_if (row_in (row_ids rows)) (λ r. record r { status = inprog }) w.db.batchrows)
        × All
            (λ r. row_in (row_ids rows) r ≡ true → is_claimable locked w.db.batches r ≡ true)
            w.db.batchrows
        × (d.batches ≡ (update_batches_status_bulk (queued_batch_ids rows) inprog w.db).batches)
  unfolding claim_block check_context mark_batches machine
  claim_block_ok n w rows v h =
      let fetched : rows ≡ fetch_block_of_rows locked queued n w.db = ground arith in
      let few = length-take_le n (join_rows locked queued w.db.batches w.db.batchrows) in
      let able = claimed_claimable locked n w.db v in
      let none_queued = mark_none w.db.batches in
      let e = is_nil-nil (queued_batch_ids (fetch_block_of_rows locked queued n w.db)) in
      (
        subst (λ rs. length rs ≤ n) (sym fetched) few,
        ground arith,
        subst
            (λ rs.
              All (λ r. row_in (row_ids rs) r ≡ true → is_claimable locked w.db.batches r ≡ true)
                w.db.batchrows)
            (sym fetched) able,
        ground arith,
      )

  -- A claim that fails leaves the tables as they were.
  pub claim_block-Atomic : (n : ℕ) → Atomic (claim_block env ctx_done locked n)
  unfolding claim_block mark_batches
  claim_block-Atomic n = search (atomic_rules, check_context-Keeps, env) depth 40
