-- ===== src/Jobs/Rows.antt =====
-- Facts about lists of rows: an update by the row numbers of a selection is the update by its test.
use alya.Prelude.{
  ℕ, List, [], ◌∷◌, Bool, false, ◌≡◌, ◌≢◌, refl, arith, select, update_if, contains, All, All-zip,
  ==_refl,
}
use alya.Jobs.Status.{StatusEnum, status_eq}
use alya.Jobs.Db.{BatchRow}
use alya.Jobs.Queries.{row_in}
use alya.Jobs.Tables.{UniqueRowids}

abbrev pub rowids : List BatchRow → List ℕ
rowids [] = []
rowids (r ∷ rs) = r.rowid ∷ rowids rs

abbrev pub has_status : StatusEnum → BatchRow → Bool
has_status s r = status_eq r.status s

module _ (p : BatchRow → Bool) where
  contains-rowids_ne :
      (n : ℕ) (rs : List BatchRow)
      → All (λ s. n ≢ s.rowid) rs
      → contains n (rowids (select p rs)) ≡ false
  contains-rowids_ne n [] h = refl
  contains-rowids_ne n (s ∷ rs) h = ground (arith, contains-rowids_ne n rs h.1)

  contains-rowids_cons :
      (r s : BatchRow) (rs : List BatchRow)
      → r.rowid ≢ s.rowid
      → contains s.rowid (rowids (select p rs)) ≡ p s
      → contains s.rowid (rowids (select p (r ∷ rs))) ≡ p s
  contains-rowids_cons r s rs ne h = ground arith

  -- A row is found among the numbers of a selection exactly when it passes its test.
  pub contains-rowids :
      (rs : List BatchRow)
      → UniqueRowids rs
      → All (λ r. contains r.rowid (rowids (select p rs)) ≡ p r) rs
  contains-rowids [] h = tt
  contains-rowids (r ∷ rs) h = (
    ground (arith, contains-rowids_ne r.rowid rs h.0, ==_refl r.rowid),
    All-zip (λ s ne k. contains-rowids_cons r s rs ne k) rs h.0 (contains-rowids rs h.1),
  )

  update_if-congr :
      (q : BatchRow → Bool) (f : BatchRow → BatchRow) (rs : List BatchRow)
      → All (λ r. q r ≡ p r) rs
      → update_if q f rs ≡ update_if p f rs
  update_if-congr q f [] h = refl
  update_if-congr q f (r ∷ rs) h = cc (h.0, update_if-congr q f rs h.1)

  -- With unique row numbers, to update the rows of a selection by their numbers is to update the
  -- rows that pass its test.
  pub update_if-rowids :
      (f : BatchRow → BatchRow) (rs : List BatchRow)
      → UniqueRowids rs
      → update_if (row_in (rowids (select p rs))) f rs ≡ update_if p f rs
  update_if-rowids f rs h = update_if-congr _ f rs (contains-rowids rs h)
