-- ===== src/Jobs/Worker/Errors/Block.antt =====
-- The loop over a claimed block (jobs/jobmanager.go) as a whole.
use alya.Prelude.{List, [], ◌∷◌, Option, some, none, Bool, true, false, String, ◌≡◌, if◌then◌else◌}
use alya.Jobs.Queries.{FetchBlockOfRowsRow}
use alya.Jobs.Machine.{
  Env, World, M, Result, Error, ok, err, now, Total, Total-bind, pure-Total, log_error-Total,
  machine,
}
use alya.Jobs.Worker.Errors.{
  Scope, app_op, app_only, row_only, scope_of, handle_configuration_error, handle_row_error,
  handle_in_scope, handle_processing_error, outcome_of, after_row, process_rows,
}

outcome_of-Total : {A : Type 0} (m : M A) → Total (outcome_of m)
unfolding outcome_of
outcome_of-Total m = record { returns = λ w e h. never (m w).0 (m w).1 e h }
  where
    never :
        {A : Type 0} (r : Result A) (w : World) (e : Error)
        → (elim r as (λ _. Result (Option Error) × World) [
          | ok a ↦ (ok none, w)
          | err x ↦ (ok (some x), w)
        ]).0
          ≡ err e
        → ⊥
    never (ok a) w e h = cc
    never (err x) w e h = cc

if-Total : {A : Type 0} (b : Bool) {m n : M A} → Total m → Total n → Total (if b then m else n)
if-Total true p q = p
if-Total false p q = q

module _ (env : Env) (error_text : Error → String) where
  now-Total : Total (now env)
  unfolding machine
  now-Total = record { returns = λ w e h. cc }

  handle_configuration_error-Total :
      (row : FetchBlockOfRowsRow) (e : Error)
      → Total (handle_configuration_error env error_text row e)
  unfolding handle_configuration_error
  handle_configuration_error-Total row e =
      Total-bind (log_error-Total _) λ _. Total-bind (log_error-Total _) λ _. log_error-Total _

  handle_row_error-Total :
      (row : FetchBlockOfRowsRow) (e : Error) → Total (handle_row_error env error_text row e)
  unfolding handle_row_error
  handle_row_error-Total row e =
      Total-bind (log_error-Total _)
        λ _. Total-bind now-Total λ t. if-Total _ (log_error-Total _) (pure-Total tt)

  handle_in_scope-Total :
      (s : Scope) (row : FetchBlockOfRowsRow) (e : Error) (l : List String)
      → Total (handle_in_scope env error_text s row e l)
  handle_in_scope-Total row_only row e l =
      Total-bind (handle_row_error-Total row e) λ _. pure-Total l
  handle_in_scope-Total app_op row e l =
      if-Total _ (pure-Total l)
        (Total-bind (handle_configuration_error-Total row e) λ _. pure-Total _)
  handle_in_scope-Total app_only row e l =
      if-Total _ (pure-Total l)
        (Total-bind (handle_configuration_error-Total row e) λ _. pure-Total _)

  after_row-Total :
      (row : FetchBlockOfRowsRow) (l : List String) (o : Option Error)
      → Total (after_row env error_text row l o)
  unfolding handle_processing_error
  after_row-Total row l none = pure-Total l
  after_row-Total row l (some e) = handle_in_scope-Total (scope_of e) row e l

  -- The loop over a block reaches its end: no error and no panic of a row, and no failure of a
  -- call, keeps the rows after it from being processed.
  pub process_rows-Total :
      (id : String) (rows : List FetchBlockOfRowsRow) (l : List String)
      → Total (process_rows env error_text id rows l)
  unfolding process_rows
  process_rows-Total id [] l = pure-Total tt
  process_rows-Total id (row ∷ rows) l = Total-bind (outcome_of-Total _) λ failure.
      Total-bind (log_error-Total _)
        λ _. Total-bind (after_row-Total row l failure) λ l'. process_rows-Total id rows l'
