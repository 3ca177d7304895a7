-- ===== src/Jobs/Recovery/Resets.antt =====
-- What a recovery may do to the tables, whatever calls fail in it.
use alya.Prelude.{
  ℕ, List, [], ◌∷◌, Bool, true, false, String, ◌≡◌, ◌⊎◌, inl, inr, refl, sym, arith, ap, ◌∙◌, ◌&&◌,
  update_if, if◌then◌else◌,
}
use mathlib.Core.Path.{subst}
use alya.Jobs.Status.{queued, inprog, status_eq}
use alya.Jobs.Db.{BatchRow, Db}
use alya.Jobs.Queries.{reset_rows_to_queued, row_in}
use alya.Jobs.Machine.{
  Env, World, M, Result, ok, err, Key, Holds, Preserves, Preserves-bind, pure-Preserves,
  if-Preserves, call-Preserves, preserves_rules, smembers, srem, key_exists, del,
}
use alya.Jobs.Recovery.{
  or_zero, reset_rows, recover_rows_from_dead_instance, recover_if_dead, recover_instances,
  recover_abandoned_rows,
}

-- Row by row, the second list is the first, but that a row in progress may be queued again.
abbrev pub Requeued : List BatchRow → List BatchRow → Type 0
Requeued [] [] = Unit {0}
Requeued (r ∷ rs) (s ∷ ss) =
    ((s ≡ r) ⊎ ((r.status ≡ inprog) × (s ≡ record r { status = queued }))) × Requeued rs ss
Requeued _ _ = ⊥

Requeued-refl : (rs : List BatchRow) → Requeued rs rs
Requeued-refl [] = tt
Requeued-refl (r ∷ rs) = (inl refl, Requeued-refl rs)

-- The tables are the given ones but for rows in progress that are queued again.
abbrev pub OnlyRequeues : Db → Db → Type 0
OnlyRequeues d0 d = (d.batches ≡ d0.batches) × Requeued d0.batchrows d.batchrows

abbrev requeued_row : BatchRow → BatchRow
requeued_row r = record r { status = queued }

requeue_row :
    (b : Bool) (r s : BatchRow)
    → (b ≡ true → s.status ≡ inprog)
    → (s ≡ r) ⊎ ((r.status ≡ inprog) × (s ≡ record r { status = queued }))
    → let t = if b then record s { status = queued } else s in
      (t ≡ r) ⊎ ((r.status ≡ inprog) × (t ≡ record r { status = queued }))
requeue_row false r s k h = h
requeue_row true r s k (inl e) = inr (ap (λ x. x.status) (sym e) ∙ k refl, ap requeued_row e)
requeue_row true r s k (inr (e, q)) = inr (e, ap requeued_row q)

reset_requeues :
    (ids : List ℕ) (rs ss : List BatchRow)
    → Requeued rs ss
    → Requeued rs (
        update_if
          (λ r. row_in ids r && status_eq r.status inprog)
          (λ r. record r { status = queued })
          ss)
reset_requeues ids [] [] h = tt
reset_requeues ids [] (s ∷ ss) h = absurd h
reset_requeues ids (r ∷ rs) [] h = absurd h
reset_requeues ids (r ∷ rs) (s ∷ ss) h = (
  requeue_row (row_in ids s && status_eq s.status inprog) r s (λ e. ground arith) h.0,
  reset_requeues ids rs ss h.1,
)

reset_OnlyRequeues :
    (d0 : Db) (ids : List ℕ) (d : Db)
    → OnlyRequeues d0 d
    → OnlyRequeues d0 (reset_rows_to_queued ids d)
reset_OnlyRequeues d0 ids d h = (h.0, reset_requeues ids d0.batchrows d.batchrows h.1)

-- A second reset of the same rows changes nothing.
pub reset_rows_to_queued_idempotent :
    (ids : List ℕ) (d : Db)
    → reset_rows_to_queued ids (reset_rows_to_queued ids d) ≡ reset_rows_to_queued ids d
reset_rows_to_queued_idempotent ids d = ap (λ rs. record d { batchrows = rs }) (go d.batchrows)
  where
    go :
        (rs : List BatchRow)
        → (let f =
              update_if
                (λ r. row_in ids r && status_eq r.status inprog)
                (λ r. record r { status = queued }) in
            f (f rs) ≡ f rs)
    go [] = refl
    go (r ∷ rs) = ground (arith, go rs)

or_zero-result :
    {P : Db → Type 0} (r : Result ℕ) (w : World)
    → Holds P w
    → Holds P (elim r as (λ _. Result ℕ × World) [ ok n ↦ (ok n, w) | err e ↦ (ok 0, w) ]).1
or_zero-result (ok n) w h = h
or_zero-result (err e) w h = h

or_zero-Preserves : {P : Db → Type 0} {m : M ℕ} → Preserves P m → Preserves P (or_zero m)
unfolding or_zero
or_zero-Preserves {P} {m} p = record {
  after = λ w h. or_zero-result {P = P} (m w).0 (m w).1 (p.after w h);
}

module _ {P : Db → Type 0} (env : Env) where
  smembers-Preserves : (k : Key) → Preserves P (smembers env k)
  unfolding smembers
  smembers-Preserves k = Preserves-bind (call-Preserves env _) λ _. record { after = λ w h. h }

  key_exists-Preserves : (k : Key) → Preserves P (key_exists env k)
  unfolding key_exists
  key_exists-Preserves k = Preserves-bind (call-Preserves env _) λ _. record { after = λ w h. h }

  srem-Preserves : (k : Key) (s : String) → Preserves P (srem env k s)
  unfolding srem
  srem-Preserves k s =
      Preserves-bind (call-Preserves env _) λ _. record {
        after = λ w h. record { committed = h.committed; uncommitted = h.uncommitted };
      }

  del-Preserves : (k : Key) → Preserves P (del env k)
  unfolding del
  del-Preserves k =
      Preserves-bind (call-Preserves env _) λ _. record {
        after = λ w h. record { committed = h.committed; uncommitted = h.uncommitted };
      }

-- What a reset keeps, a recovery keeps.
module _ {P : Db → Type 0}
    (reset-P : (ids : List ℕ) (d : Db) → P d → P (reset_rows_to_queued ids d)) (env : Env) where
  reset_rows-Preserves : (ids : List ℕ) → Preserves P (reset_rows env ids)
  unfolding reset_rows
  reset_rows-Preserves ids = search (preserves_rules, reset-P, env) depth 40

  recover_rows-Preserves : (id : String) → Preserves P (recover_rows_from_dead_instance env id)
  unfolding recover_rows_from_dead_instance
  recover_rows-Preserves id =
      search (preserves_rules, smembers-Preserves, del-Preserves, reset_rows-Preserves) depth 40

  recover_if_dead-Preserves : (id : String) → Preserves P (recover_if_dead env id)
  unfolding recover_if_dead
  recover_if_dead-Preserves id =
      search (preserves_rules, key_exists-Preserves, srem-Preserves, recover_rows-Preserves) depth
        40

  recover_instances-Preserves :
      (own : String) (ids : List String) → Preserves P (recover_instances env own ids)
  unfolding recover_instances
  recover_instances-Preserves own [] = pure-Preserves 0
  recover_instances-Preserves own (id ∷ rest) =
      Preserves-bind
        (if-Preserves _ (pure-Preserves 0) (or_zero-Preserves (recover_if_dead-Preserves id)))
        λ n. Preserves-bind (recover_instances-Preserves own rest) λ m. pure-Preserves _

  pub recover_abandoned_rows-Preserves :
      (own : String) → Preserves P (recover_abandoned_rows env own)
  unfolding recover_abandoned_rows
  recover_abandoned_rows-Preserves own =
      Preserves-bind (smembers-Preserves env _) λ ids. recover_instances-Preserves own ids

-- Outside a transaction, a recovery changes no batch, and every row is in its place as it was,
-- but that a row in progress may be queued again. No finished row is ever touched, whatever calls
-- fail.
pub recover_abandoned_rows-OnlyRequeues :
    (env : Env) (own : String) (w : World)
    → ((d : Db) → w.pending d ≡ d)
    → OnlyRequeues w.db (recover_abandoned_rows env own w).1.db
recover_abandoned_rows-OnlyRequeues env own w h =
    ((recover_abandoned_rows-Preserves (reset_OnlyRequeues w.db) env own).after w (record {
      committed = (refl, Requeued-refl w.db.batchrows);
      uncommitted = λ d k. subst (λ d'. OnlyRequeues w.db d') (sym (h d)) k;
    })).committed
