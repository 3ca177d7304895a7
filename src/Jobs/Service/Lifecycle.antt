-- ===== src/Jobs/Service/Lifecycle.antt =====
-- The life of a row: what the clients' calls and a recovery may do to it.
use alya.Prelude.{
  ℕ, ◌+◌, List, [], ◌∷◌, ◌++◌, String, Bool, true, false, some, none, ◌≡◌, refl, sym, ap, All,
  All-append, update_if, if◌then◌else◌, any_if,
}
use mathlib.Core.Path.{subst}
use mathlib.Core.Option.{some-injective}
use alya.Prelude.Int.{ℤ}
use alya.Jobs.Status.{StatusEnum, queued, inprog, aborted, is_pending}
use alya.Jobs.Db.{Batch, BatchRow, Db}
use alya.Jobs.Tables.Closed.{Growing}
use alya.Jobs.Queries.{has_id, numbered_rows, bulk_insert_into_batch_rows, insert_into_batches}

-- The steps in the life of a row that another row is after: of a call that aborts where `b` holds,
-- and of one that recovers where `c` does.
pub data RowStep (b c : Bool) (r s : BatchRow) : Type 0 where
  stays : s ≡ r → RowStep b c r s
  dropped :
      b ≡ true → is_pending r.status ≡ true → s ≡ record r { status = aborted } → RowStep b c r s
  requeued : c ≡ true → r.status ≡ inprog → s ≡ record r { status = queued } → RowStep b c r s

-- Every row takes one step, and the rows that come after them are new and queued.
abbrev pub Advances : Bool → Bool → List BatchRow → List BatchRow → Type 0
Advances b c [] new = All (λ r. r.status ≡ queued) new
Advances b c (r ∷ rs) [] = ⊥
Advances b c (r ∷ rs) (s ∷ ss) = RowStep b c r s × Advances b c rs ss

module _ (b c : Bool) where
  pub Advances-refl : (rs : List BatchRow) → Advances b c rs rs
  Advances-refl [] = tt
  Advances-refl (r ∷ rs) = (stays refl, Advances-refl rs)

  Advances-append :
      (rs ss new : List BatchRow)
      → Advances b c rs ss
      → All (λ r. r.status ≡ queued) new
      → Advances b c rs (ss ++ new)
  Advances-append [] ss new h k = All-append _ ss new h k
  Advances-append (r ∷ rs) [] new h k = absurd h
  Advances-append (r ∷ rs) (s ∷ ss) new h k = (h.0, Advances-append rs ss new h.1 k)

  pub update_if-Advances :
      (p : BatchRow → Bool) (f : BatchRow → BatchRow) (rs : List BatchRow)
      → All (λ r. p r ≡ true → RowStep b c r (f r)) rs
      → Advances b c rs (update_if p f rs)
  update_if-Advances p f [] h = tt
  update_if-Advances p f (r ∷ rs) h = (either (p r) h.0, update_if-Advances p f rs h.1)
    where
      either : (q : Bool) → (q ≡ true → RowStep b c r (f r)) → RowStep b c r (if q then f r else r)
      either true k = k refl
      either false k = stays refl

numbered_rows-queued :
    (n batch : ℕ) (xs : List (ℤ × String × ℕ))
    → All (λ r. r.status ≡ queued) (numbered_rows n batch xs)
unfolding numbered_rows
numbered_rows-queued n batch [] = tt
numbered_rows-queued n batch ((line, input, reqat) ∷ xs) =
    (refl, numbered_rows-queued (n + 1) batch xs)

insert_batch-batchrows :
    (id : ℕ) (app op context : String) (status : StatusEnum) (reqat : ℕ) (d d' : Db)
    → insert_into_batches id app op context status reqat d ≡ some d'
    → d'.batchrows ≡ d.batchrows
insert_batch-batchrows id app op context status reqat d d' e = go (any_if (has_id id) d.batches) _ e
  where
    go :
        (b : Bool) (x : Batch)
        → (if b then none else some (record d { batches = d.batches ++ x ∷ [] })) ≡ some d'
        → d'.batchrows ≡ d.batchrows
    go true x p = cc
    go false x p = ap (λ e. e.batchrows) (sym (some-injective _ d' p))

-- The rows of the first tables, and new ones.
abbrev pub AfterRows : Bool → Bool → Db → Db → Type 0
AfterRows b c d0 d = Advances b c d0.batchrows d.batchrows

pub AfterRows-Growing : (b c : Bool) (d0 : Db) → Growing (AfterRows b c d0)
unfolding bulk_insert_into_batch_rows
AfterRows-Growing b c d0 = record {
  update_batches-keeps = λ p f i a o k r d v. v;
  bulk_insert-keeps = λ batch xs d v.
      Advances-append b c d0.batchrows d.batchrows _ v (numbered_rows-queued d.next_rowid batch xs);
  insert_row-keeps =
      λ batch line input reqat d v. Advances-append b c d0.batchrows d.batchrows _ v (refl, tt);
  insert_batch-keeps = λ id app op context status reqat d d' e v.
      subst (Advances b c d0.batchrows)
        (sym (insert_batch-batchrows id app op context status reqat d d' e)) v;
}
