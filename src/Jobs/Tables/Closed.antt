-- ===== src/Jobs/Tables/Closed.antt =====
-- The properties of the tables that the statements of jobs/pg/batchsqlc keep, whatever values they
-- write: the service's functions then keep them too.
use alya.Prelude.{
  ℕ, List, [], ◌∷◌, ◌++◌, Bool, true, false, some, none, String, ◌≡◌, refl, ◌∙◌, if◌then◌else◌,
  any_if, update_if,
}
use mathlib.Core.Path.{subst}
use mathlib.Core.Option.{some-injective}
use alya.Prelude.Int.{ℤ}
use alya.Jobs.Status.{StatusEnum}
use alya.Jobs.Db.{Batch, BatchRow, Db}
use alya.Jobs.Queries.{
  has_id, bulk_insert_into_batch_rows, insert_into_batch_rows, insert_into_batches, update_batches,
  update_batchrows,
}
use alya.Jobs.Tables.{
  IsValid, update_batches-IsValid, update_batchrows-IsValid, bulk_insert-IsValid,
  insert_row-IsValid, insert_batch-IsValid,
}

-- Rows are added, and batches added and updated, but never what identifies a batch and what was
-- submitted with it.
pub record Growing (P : Db → Type 0) : Type 0 where
  pub update_batches-keeps :
      (p : Batch → Bool) (f : Batch → Batch)
      → ((b : Batch) → (f b).id ≡ b.id)
      → ((b : Batch) → (f b).app ≡ b.app)
      → ((b : Batch) → (f b).op ≡ b.op)
      → ((b : Batch) → (f b).context ≡ b.context)
      → ((b : Batch) → (f b).reqat ≡ b.reqat)
      → (d : Db) → P d
      → P (update_batches p f d)
  pub bulk_insert-keeps :
      (batch : ℕ) (xs : List (ℤ × String × ℕ)) (d : Db)
      → P d
      → P (bulk_insert_into_batch_rows batch xs d)
  pub insert_row-keeps :
      (batch : ℕ) (line : ℤ) (input : String) (reqat : ℕ) (d : Db)
      → P d
      → P (insert_into_batch_rows batch line input reqat d)
  pub insert_batch-keeps :
      (id : ℕ) (app op context : String) (status : StatusEnum) (reqat : ℕ) (d d' : Db)
      → insert_into_batches id app op context status reqat d ≡ some d'
      → P d
      → P d'

-- Rows are updated too, but never what identifies one and what was submitted with it.
pub record Closed (P : Db → Type 0) : Type 0 where
  pub growing : Growing P
  pub update_batchrows-keeps :
      (p : BatchRow → Bool) (f : BatchRow → BatchRow)
      → ((r : BatchRow) → (f r).rowid ≡ r.rowid)
      → ((r : BatchRow) → (f r).batch ≡ r.batch)
      → ((r : BatchRow) → (f r).line ≡ r.line)
      → ((r : BatchRow) → (f r).input ≡ r.input)
      → ((r : BatchRow) → (f r).reqat ≡ r.reqat)
      → (d : Db) → P d
      → P (update_batchrows p f d)

pub IsValid-Closed : Closed IsValid
IsValid-Closed = record {
  growing = record {
    update_batches-keeps = λ p f k _ _ _ _ d v. update_batches-IsValid p f k d v;
    bulk_insert-keeps = bulk_insert-IsValid;
    insert_row-keeps = insert_row-IsValid;
    insert_batch-keeps = insert_batch-IsValid;
  };
  update_batchrows-keeps = λ p f k _ _ _ _ d v. update_batchrows-IsValid p f k d v;
}

-- The second is the first at a later time: only what becomes of it may differ.
pub record SameBatch (b c : Batch) : Type 0 where
  pub id : c.id ≡ b.id
  pub app : c.app ≡ b.app
  pub op : c.op ≡ b.op
  pub context : c.context ≡ b.context
  pub reqat : c.reqat ≡ b.reqat

pub record SameRow (r s : BatchRow) : Type 0 where
  pub rowid : s.rowid ≡ r.rowid
  pub batch : s.batch ≡ r.batch
  pub line : s.line ≡ r.line
  pub input : s.input ≡ r.input
  pub reqat : s.reqat ≡ r.reqat

-- One by one, the first list is the beginning of the second.
abbrev pub Continues : {A : Type 0} → (A → A → Type 0) → List A → List A → Type 0
Continues R [] ys = Unit {0}
Continues R (x ∷ xs) [] = ⊥
Continues R (x ∷ xs) (y ∷ ys) = R x y × Continues R xs ys

module _ {A : Type 0} (R : A → A → Type 0) where
  Continues-refl : ((x : A) → R x x) → (xs : List A) → Continues R xs xs
  Continues-refl h [] = tt
  Continues-refl h (x ∷ xs) = (h x, Continues-refl h xs)

  Continues-append : (xs ys zs : List A) → Continues R xs ys → Continues R xs (ys ++ zs)
  Continues-append [] ys zs h = tt
  Continues-append (x ∷ xs) [] zs h = absurd h
  Continues-append (x ∷ xs) (y ∷ ys) zs h = (h.0, Continues-append xs ys zs h.1)

  Continues-update_if :
      (p : A → Bool) (f : A → A)
      → ((x y : A) → R x y → R x (f y))
      → (xs ys : List A) → Continues R xs ys
      → Continues R xs (update_if p f ys)
  Continues-update_if p f k [] ys h = tt
  Continues-update_if p f k (x ∷ xs) [] h = absurd h
  Continues-update_if p f k (x ∷ xs) (y ∷ ys) h =
      (either (p y), Continues-update_if p f k xs ys h.1)
    where
      either : (b : Bool) → R x (if b then f y else y)
      either true = k x y h.0
      either false = h.0

-- No batch and no row of the first tables is gone from the second or has become another.
pub record Evolves (d0 d : Db) : Type 0 where
  pub batches : Continues SameBatch d0.batches d.batches
  pub batchrows : Continues SameRow d0.batchrows d.batchrows

pub Evolves-refl : (d : Db) → Evolves d d
Evolves-refl d = record {
  batches =
      Continues-refl SameBatch
        (λ b. record { id = refl; app = refl; op = refl; context = refl; reqat = refl }) d.batches;
  batchrows =
      Continues-refl SameRow
        (λ r. record { rowid = refl; batch = refl; line = refl; input = refl; reqat = refl })
        d.batchrows;
}

insert_batch-Evolves :
    (d0 : Db) (id : ℕ) (app op context : String) (status : StatusEnum) (reqat : ℕ) (d d' : Db)
    → insert_into_batches id app op context status reqat d ≡ some d'
    → Evolves d0 d
    → Evolves d0 d'
insert_batch-Evolves d0 id app op context status reqat d d' e v =
    go (any_if (has_id id) d.batches) _ e
  where
    go :
        (b : Bool) (x : Batch)
        → (if b then none else some (record d { batches = d.batches ++ x ∷ [] })) ≡ some d'
        → Evolves d0 d'
    go true x p = cc
    go false x p = subst (Evolves d0) (some-injective _ d' p) (record {
      batches = Continues-append SameBatch d0.batches d.batches (x ∷ []) v.batches;
      batchrows = v.batchrows;
    })

pub Evolves-Closed : (d0 : Db) → Closed (Evolves d0)
unfolding bulk_insert_into_batch_rows
Evolves-Closed d0 = record {
  growing = record {
    update_batches-keeps = λ p f i a o c r d v. record {
      batches =
          Continues-update_if SameBatch p f
            (λ x y s. record {
              id = i y ∙ s.id;
              app = a y ∙ s.app;
              op = o y ∙ s.op;
              context = c y ∙ s.context;
              reqat = r y ∙ s.reqat;
            })
            d0.batches d.batches v.batches;
      batchrows = v.batchrows;
    };
    bulk_insert-keeps = λ batch xs d v. record {
      batches = v.batches;
      batchrows = Continues-append SameRow d0.batchrows d.batchrows _ v.batchrows;
    };
    insert_row-keeps = λ batch line input reqat d v. record {
      batches = v.batches;
      batchrows = Continues-append SameRow d0.batchrows d.batchrows _ v.batchrows;
    };
    insert_batch-keeps = insert_batch-Evolves d0;
  };
  update_batchrows-keeps = λ p f i b l n r d v. record {
    batches = v.batches;
    batchrows =
        Continues-update_if SameRow p f
          (λ x y s. record {
            rowid = i y ∙ s.rowid;
            batch = b y ∙ s.batch;
            line = l y ∙ s.line;
            input = n y ∙ s.input;
            reqat = r y ∙ s.reqat;
          })
          d0.batchrows d.batchrows v.batchrows;
  };
}
