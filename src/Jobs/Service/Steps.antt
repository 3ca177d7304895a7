-- ===== src/Jobs/Service/Steps.antt =====
-- The calls of clients and a recovery against the life of a row.
use alya.Prelude.{
  ℕ, ◌+◌, List, [], ◌∷◌, String, Bool, true, false, not, ◌&&◌, ◌≡◌, ◌⊎◌, inl, inr, refl, sym, arith,
  All, update_if, if◌then◌else◌, Option-cases, Bool-cases,
}
use mathlib.Core.Path.{subst}
use alya.Prelude.Int.{ℤ}
use alya.Jobs.Status.{StatusEnum, queued, inprog, aborted, is_pending, is_final}
use alya.Jobs.Db.{BatchRow, Db}
use alya.Jobs.Tables.{IsValid}
use alya.Jobs.Rows.{update_if-rowids}
use alya.Jobs.Queries.{get_batch_by_id, is_pending_in}
use alya.Jobs.Machine.{
  Env, World, M, Result, Error, ok, err, Preserves, Preserves-of_Inert, machine,
}
use alya.Jobs.Batch.{batch_abort}
use alya.Jobs.Batch.Abort.{batch_abort_settles}
use alya.Jobs.Batch.Atomicity.{batch_abort-Atomic}
use alya.Jobs.SlowQuery.{slow_query_abort}
use alya.Jobs.Recovery.{recover_abandoned_rows}
use alya.Jobs.Recovery.Resets.{Requeued, recover_abandoned_rows-OnlyRequeues}
use alya.Jobs.Batch.Invariant.{batch_submit-Preserves, batch_append-Preserves, wait_off-Preserves}
use alya.Jobs.BatchStatus.Still.{batch_status-Inert}
use alya.Jobs.BatchDone.Still.{batch_done-Inert}
use alya.Jobs.SlowQueryDone.Still.{slow_query_done-Inert}
use alya.Jobs.SlowQuery.Kept.{slow_query_submit-Preserves}
use alya.Jobs.Service.{
  Operation, submits, appends, waits_off, aborts, asks_status, asks_result, submits_query,
  aborts_query, asks_query, iterates, recovers, sweeps, perform,
}
use alya.Jobs.Service.Lifecycle.{
  RowStep, stays, requeued, dropped, Advances, Advances-refl, update_if-Advances, AfterRows,
  AfterRows-Growing,
}

pending_in_pending : (i : ℕ) (r : BatchRow) → is_pending_in i r ≡ true → is_pending r.status ≡ true
pending_in_pending i r h = ground arith

aborted_pending :
    (i : ℕ) (rs : List BatchRow)
    → All (λ r. is_pending_in i r ≡ true → RowStep true false r (record r { status = aborted })) rs
aborted_pending i [] = tt
aborted_pending i (r ∷ rs) =
    (λ h. dropped refl (pending_in_pending i r h) refl, aborted_pending i rs)

-- Where the rows are as they were, or the pending ones of a batch are aborted.
abort-Advances :
    (i : ℕ) (b : Bool) (rs ss : List BatchRow)
    → ss ≡ (if b then update_if (is_pending_in i) (λ r. record r { status = aborted }) rs else rs)
    → Advances true false rs ss
abort-Advances i true rs ss e =
    subst (Advances true false rs) (sym e)
      (update_if-Advances true false _ _ rs (aborted_pending i rs))
abort-Advances i false rs ss e =
    subst (Advances true false rs) (sym e) (Advances-refl true false rs)

Requeued-Advances : (rs ss : List BatchRow) → Requeued rs ss → Advances false true rs ss
Requeued-Advances [] [] h = tt
Requeued-Advances [] (s ∷ ss) h = absurd h
Requeued-Advances (r ∷ rs) [] h = absurd h
Requeued-Advances (r ∷ rs) (s ∷ ss) h = (one h.0, Requeued-Advances rs ss h.1)
  where
    one :
        (s ≡ r) ⊎ ((r.status ≡ inprog) × (s ≡ record r { status = queued }))
        → RowStep false true r s
    one (inl e) = stays e
    one (inr (q, e)) = requeued refl q e

module _ (env : Env) where
  batch_abort-AfterRows :
      (id : String) (w : World)
      → IsValid w.db
      → AfterRows true false w.db (batch_abort env id w).1.db
  unfolding batch_abort machine
  batch_abort-AfterRows id w v = go (batch_abort env id w).0 refl
    where
      go :
          (r : Result (StatusEnum × ℤ × ℤ × ℤ))
          → (batch_abort env id w).0 ≡ r
          → AfterRows true false w.db (batch_abort env id w).1.db
      go (err e) h =
          subst (AfterRows true false w.db) (sym ((batch_abort-Atomic env id).undone w e h))
            (Advances-refl true false w.db.batchrows)
      go (ok r) h = elim (Option-cases (env.parse_uuid id)) [
        | inl p ↦ absurd (ground arith)
        | inr (i, p) ↦ elim (Option-cases (get_batch_by_id i w.db)) [
          | inl q ↦ absurd (ground arith)
          | inr (b, q) ↦ elim (Bool-cases (is_final b.status)) [
            | inl f ↦ abort-Advances i false w.db.batchrows _ (ground arith)
            | inr f ↦
                let (rows, _, _) = batch_abort_settles env id i b w r v p q f h in
                abort-Advances i true w.db.batchrows _ rows
          ]
        ]
      ]

  slow_query_abort-AfterRows :
      (id : String) (w : World)
      → IsValid w.db
      → AfterRows true false w.db (slow_query_abort env id w).1.db
  unfolding slow_query_abort machine
  slow_query_abort-AfterRows id w v = elim (Option-cases (env.parse_uuid id)) [
    | inl p ↦ abort-Advances 0 false w.db.batchrows _ (ground arith)
    | inr (i, p) ↦ elim (Option-cases (get_batch_by_id i w.db)) [
      | inl q ↦ abort-Advances 0 false w.db.batchrows _ (ground arith)
      | inr (b, q) ↦
          let rows =
            update_if-rowids (is_pending_in i) (λ r. record r { status = aborted }) w.db.batchrows
              v.unique_rowids in
          elim (Bool-cases (is_final b.status)) [
            | inl f ↦ abort-Advances 0 false w.db.batchrows _ (ground arith)
            | inr f ↦ elim (Bool-cases (env.fails (w.calls + 2))) [
              | inl e2 ↦ abort-Advances 0 false w.db.batchrows _ (ground arith)
              | inr e2 ↦ elim (Bool-cases (env.fails (w.calls + 3))) [
                | inl e3 ↦ abort-Advances 0 false w.db.batchrows _ (ground arith)
                | inr e3 ↦
                    let reached =
                      not (env.fails w.calls)
                      && not (env.fails (w.calls + 1))
                      && not (env.fails (w.calls + 4)) in
                    abort-Advances i reached w.db.batchrows _ (ground (arith, rows))
              ]
            ]
          ]
    ]
  ]

  recover-AfterRows :
      (own : String) (w : World)
      → ((d : Db) → w.pending d ≡ d)
      → AfterRows false true w.db (recover_abandoned_rows env own w).1.db
  recover-AfterRows own w idle =
      Requeued-Advances w.db.batchrows _ (recover_abandoned_rows-OnlyRequeues env own w idle).1

  -- All but the runs of a worker and the sweeps.
  abbrev pub is_client_or_recovery : Operation → Bool
  is_client_or_recovery (iterates ctx_done locked map_order id n) = false
  is_client_or_recovery (sweeps ctx_done) = false
  is_client_or_recovery _ = true

  abbrev pub is_abort : Operation → Bool
  is_abort (aborts id) = true
  is_abort (aborts_query id) = true
  is_abort _ = false

  abbrev pub is_recovery : Operation → Bool
  is_recovery (recovers id) = true
  is_recovery _ = false

  grows :
      {A : Type 0} {m : M A} (w : World)
      → ((d : Db) → w.pending d ≡ d)
      → Preserves (AfterRows false false w.db) m
      → AfterRows false false w.db (m w).1.db
  grows w idle p =
      (p.after w (record {
        committed = Advances-refl false false w.db.batchrows;
        uncommitted = λ d q. subst (AfterRows false false w.db) (sym (idle d)) q;
      })).committed

  -- A client's call or a recovery, whatever calls fail in it, changes at most the status of the rows
  -- that were there, and that in one way: Abort, of a batch or a slow query, alone aborts rows, and
  -- only queued ones and ones in progress; a recovery alone queues rows again, and only ones in
  -- progress; every other call leaves them as they are. The rows it adds are queued. The tables have
  -- valid keys and no transaction is open.
  pub perform-AfterRows :
      (error_text : Error → String) (x : Operation) (w : World)
      → is_client_or_recovery x ≡ true
      → ((d : Db) → w.pending d ≡ d)
      → IsValid w.db
      → AfterRows (is_abort x) (is_recovery x) w.db (perform env error_text x w).db
  unfolding perform
  perform-AfterRows error_text (submits app op ctx input waitabit) w c idle v =
      grows w idle
        (batch_submit-Preserves (AfterRows-Growing false false w.db) env app op ctx input waitabit)
  perform-AfterRows error_text (appends i input waitabit) w c idle v =
      grows w idle
        (batch_append-Preserves (AfterRows-Growing false false w.db) env i input waitabit)
  perform-AfterRows error_text (waits_off i) w c idle v =
      grows w idle (wait_off-Preserves (AfterRows-Growing false false w.db) env i)
  perform-AfterRows error_text (aborts i) w c idle v = batch_abort-AfterRows i w v
  perform-AfterRows error_text (asks_status i) w c idle v =
      grows w idle (Preserves-of_Inert (batch_status-Inert env i))
  perform-AfterRows error_text (asks_result i) w c idle v =
      grows w idle (Preserves-of_Inert (batch_done-Inert env i))
  perform-AfterRows error_text (submits_query app op ctx input) w c idle v =
      grows w idle
        (slow_query_submit-Preserves (AfterRows-Growing false false w.db) env app op ctx input)
  perform-AfterRows error_text (aborts_query i) w c idle v = slow_query_abort-AfterRows i w v
  perform-AfterRows error_text (asks_query i) w c idle v =
      grows w idle (Preserves-of_Inert (slow_query_done-Inert env i))
  perform-AfterRows error_text (recovers id) w c idle v = recover-AfterRows id w idle
  perform-AfterRows error_text (iterates ctx_done locked map_order id n) w c idle v = cc
  perform-AfterRows error_text (sweeps ctx_done) w c idle v = cc
