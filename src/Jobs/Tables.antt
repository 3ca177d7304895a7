-- ===== src/Jobs/Tables.antt =====
-- What the keys of the two tables promise, under the statements of jobs/pg/batchsqlc.
pub mod Closed
use alya.Prelude.{
  ℕ, ◌+◌, ◌<◌, ◌≤◌, List, [], ◌∷◌, ◌++◌, Bool, true, false, some, none, String, ◌≡◌, ◌≢◌, refl,
  arith, if◌then◌else◌, length, any_if, update_if, All, All-append, All-update_if, All-map,
}
use mathlib.Core.Path.{subst}
use mathlib.Core.Option.{some-injective}
use alya.Prelude.Int.{ℤ}
use alya.Jobs.Status.{StatusEnum}
use alya.Jobs.Db.{Batch, BatchRow, Db}
use alya.Jobs.Queries.{
  has_id, numbered_rows, bulk_insert_into_batch_rows, insert_into_batch_rows, insert_into_batches,
  update_batches, update_batchrows, new_row,
}

-- No number stands for two rows; no UUID for two batches.
abbrev pub UniqueRowids : List BatchRow → Type 0
UniqueRowids [] = Unit
UniqueRowids (r ∷ rs) = All (λ s. r.rowid ≢ s.rowid) rs × UniqueRowids rs

abbrev pub UniqueIds : List Batch → Type 0
UniqueIds [] = Unit
UniqueIds (b ∷ bs) = All (λ c. b.id ≢ c.id) bs × UniqueIds bs

pub record IsValid (db : Db) : Type 0 where
  pub unique_rowids : UniqueRowids db.batchrows
  pub below_sequence : All (λ r. r.rowid < db.next_rowid) db.batchrows
  pub unique_ids : UniqueIds db.batches

UniqueRowids-append :
    (xs ys : List BatchRow)
    → UniqueRowids xs
    → UniqueRowids ys
    → All (λ x. All (λ y. x.rowid ≢ y.rowid) ys) xs
    → UniqueRowids (xs ++ ys)
UniqueRowids-append [] ys h k m = k
UniqueRowids-append (x ∷ xs) ys h k m =
    (All-append _ xs ys h.0 m.0, UniqueRowids-append xs ys h.1 k m.1)

UniqueIds-append :
    (bs : List Batch) (c : Batch)
    → UniqueIds bs
    → All (λ b. b.id ≢ c.id) bs
    → UniqueIds (bs ++ c ∷ [])
UniqueIds-append [] c h m = (tt, tt)
UniqueIds-append (b ∷ bs) c h m =
    (All-append _ bs (c ∷ []) h.0 (m.0, tt), UniqueIds-append bs c h.1 m.1)

UniqueRowids-update_if :
    (p : BatchRow → Bool) (f : BatchRow → BatchRow) (rs : List BatchRow)
    → ((r : BatchRow) → (f r).rowid ≡ r.rowid)
    → UniqueRowids rs
    → UniqueRowids (update_if p f rs)
UniqueRowids-update_if p f [] k h = tt
UniqueRowids-update_if p f (r ∷ rs) k h = (
  All-update_if p f rs (λ s _ ne. ground (arith, ne, k s, k r, same (p r)))
      (All-map (λ s ne. ground (arith, ne, same (p r))) rs h.0),
  UniqueRowids-update_if p f rs k h.1,
)
  where
    same : (b : Bool) → (if b then f r else r).rowid ≡ r.rowid
    same true = k r
    same false = refl

UniqueIds-update_if :
    (p : Batch → Bool) (f : Batch → Batch) (bs : List Batch)
    → ((b : Batch) → (f b).id ≡ b.id)
    → UniqueIds bs
    → UniqueIds (update_if p f bs)
UniqueIds-update_if p f [] k h = tt
UniqueIds-update_if p f (b ∷ bs) k h = (
  All-update_if p f bs (λ c _ ne. ground (arith, ne, k c, same (p b)))
      (All-map (λ c ne. ground (arith, ne, same (p b))) bs h.0),
  UniqueIds-update_if p f bs k h.1,
)
  where
    same : (x : Bool) → (if x then f b else b).id ≡ b.id
    same true = k b
    same false = refl

pub update_batches-IsValid :
    (p : Batch → Bool) (f : Batch → Batch)
    → ((b : Batch) → (f b).id ≡ b.id)
    → (d : Db) → IsValid d
    → IsValid (update_batches p f d)
update_batches-IsValid p f k d v = record {
  unique_rowids = v.unique_rowids;
  below_sequence = v.below_sequence;
  unique_ids = UniqueIds-update_if p f d.batches k v.unique_ids;
}

pub update_batchrows-IsValid :
    (p : BatchRow → Bool) (f : BatchRow → BatchRow)
    → ((r : BatchRow) → (f r).rowid ≡ r.rowid)
    → (d : Db) → IsValid d
    → IsValid (update_batchrows p f d)
update_batchrows-IsValid p f k d v = record {
  unique_rowids = UniqueRowids-update_if p f d.batchrows k v.unique_rowids;
  below_sequence =
      All-update_if p f d.batchrows (λ r _ lt. omega (arith, lt, k r)) v.below_sequence;
  unique_ids = v.unique_ids;
}

numbered_bounds :
    (n batch : ℕ) (xs : List (ℤ × String × ℕ))
    → All (λ r. (n ≤ r.rowid) × (r.rowid < n + length xs)) (numbered_rows n batch xs)
unfolding numbered_rows
numbered_bounds n batch [] = tt
numbered_bounds n batch ((line, input, reqat) ∷ xs) = (
  (omega arith, omega arith),
  All-map (λ r h. (omega arith, omega arith)) (numbered_rows (n + 1) batch xs)
      (numbered_bounds (n + 1) batch xs),
)

numbered_unique :
    (n batch : ℕ) (xs : List (ℤ × String × ℕ)) → UniqueRowids (numbered_rows n batch xs)
unfolding numbered_rows
numbered_unique n batch [] = tt
numbered_unique n batch ((line, input, reqat) ∷ xs) = (
  All-map (λ r h. omega arith) (numbered_rows (n + 1) batch xs) (numbered_bounds (n + 1) batch xs),
  numbered_unique (n + 1) batch xs,
)

pub bulk_insert-IsValid :
    (batch : ℕ) (xs : List (ℤ × String × ℕ)) (d : Db)
    → IsValid d
    → IsValid (bulk_insert_into_batch_rows batch xs d)
unfolding bulk_insert_into_batch_rows
bulk_insert-IsValid batch xs d v =
    let new = numbered_rows d.next_rowid batch xs in
    record {
      unique_rowids =
          UniqueRowids-append d.batchrows new v.unique_rowids
            (numbered_unique d.next_rowid batch xs)
            (All-map
              (λ r lt. All-map (λ s h. omega arith) new (numbered_bounds d.next_rowid batch xs))
              d.batchrows v.below_sequence);
      below_sequence =
          All-append _ d.batchrows new (All-map (λ r lt. omega arith) d.batchrows v.below_sequence)
            (All-map (λ r h. h.1) new (numbered_bounds d.next_rowid batch xs));
      unique_ids = v.unique_ids;
    }

pub insert_row-IsValid :
    (batch : ℕ) (line : ℤ) (input : String) (reqat : ℕ) (d : Db)
    → IsValid d
    → IsValid (insert_into_batch_rows batch line input reqat d)
insert_row-IsValid batch line input reqat d v = record {
  unique_rowids =
      UniqueRowids-append d.batchrows (new_row d.next_rowid batch line input reqat ∷ [])
        v.unique_rowids (tt, tt) (All-map (λ r lt. (omega arith, tt)) d.batchrows v.below_sequence);
  below_sequence =
      All-append _ d.batchrows (new_row d.next_rowid batch line input reqat ∷ [])
        (All-map (λ r lt. omega arith) d.batchrows v.below_sequence) (omega arith, tt);
  unique_ids = v.unique_ids;
}

absent : (i : ℕ) (bs : List Batch) → any_if (has_id i) bs ≡ false → All (λ b. b.id ≢ i) bs
absent i [] h = tt
absent i (b ∷ bs) h = (ground arith, absent i bs (ground arith))

pub insert_batch-IsValid :
    (id : ℕ) (app op context : String) (status : StatusEnum) (reqat : ℕ) (d d' : Db)
    → insert_into_batches id app op context status reqat d ≡ some d'
    → IsValid d
    → IsValid d'
insert_batch-IsValid id app op context status reqat d d' e v =
    go (any_if (has_id id) d.batches) refl e
  where
    extended : Db
    extended = record d {
      batches =
          d.batches
          ++ record {
            id = id;
            app = app;
            op = op;
            context = context;
            status = status;
            reqat = reqat;
            doneat = none;
            outputfiles = none;
            nsuccess = none;
            nfailed = none;
            naborted = none;
          }
            ∷ [];
    }

    go :
        (b : Bool)
        → any_if (has_id id) d.batches ≡ b
        → (if b then none else some extended) ≡ some d'
        → IsValid d'
    go true h p = cc
    go false h p = subst IsValid (some-injective extended d' p) (record {
      unique_rowids = v.unique_rowids;
      below_sequence = v.below_sequence;
      unique_ids = UniqueIds-append d.batches _ v.unique_ids (absent id d.batches h);
    })
