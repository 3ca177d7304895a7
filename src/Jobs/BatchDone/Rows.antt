-- ===== src/Jobs/BatchDone/Rows.antt =====
-- The rows of a reply on a batch.
use alya.Prelude.{List, [], ◌∷◌, some, ◌≡◌, refl, sym, ap, ◌∙◌, arith, Option-cases, ◌⊎◌, inl, inr}
use mathlib.Core.Path.{subst}
use alya.Jobs.Status.{map_status_enum}
use alya.Jobs.Db.{BatchRow}
use alya.Jobs.Types.{JsonStr, new_json_str}
use alya.Jobs.Machine.{Env, World, Error, Result, ok, err, machine}
use alya.Jobs.BatchDone.{bytes, BatchOutput, convert_rows}

pub Result-cases :
    {A : Type 0} (r : Result A) → ((e : Error) × (r ≡ err e)) ⊎ ((a : A) × (r ≡ ok a))
Result-cases (ok a) = inr (a, refl)
Result-cases (err e) = inl (e, refl)

module _ (env : Env) where
  -- The outputs are those of the rows, one by one.
  abbrev pub Outputs : List BatchRow → List BatchOutput → Type 0
  Outputs [] [] = Unit {0}
  Outputs (r ∷ rs) (o ∷ os) =
      (o.line ≡ r.line)
      × (o.status ≡ map_status_enum r.status)
      × (new_json_str env.is_json (bytes r.res) ≡ some o.res)
      × (new_json_str env.is_json (bytes r.messages) ≡ some o.messages)
      × Outputs rs os
  Outputs _ _ = ⊥

  pub convert_rows_lem :
      (rows : List BatchRow) (w : World) (outputs : List BatchOutput)
      → (convert_rows env rows w).0 ≡ ok outputs
      → Outputs rows outputs
  unfolding convert_rows machine
  convert_rows_lem [] w outputs h =
      let none_there : [] ≡ outputs = ground arith in subst (Outputs []) none_there tt
  convert_rows_lem (r ∷ rs) w outputs h =
      elim (Option-cases (new_json_str env.is_json (bytes r.res))) [
        | inl e ↦ absurd (ground arith)
        | inr (res, e) ↦ elim (Option-cases (new_json_str env.is_json (bytes r.messages))) [
          | inl k ↦ absurd (ground arith)
          | inr (messages, k) ↦ elim (Result-cases (convert_rows env rs w).0) [
            | inl (x, q) ↦ absurd (ground arith)
            | inr (rest, q) ↦
                let o : BatchOutput = record {
                  line = r.line;
                  status = map_status_enum r.status;
                  res = res;
                  messages = messages;
                } in
                let all : o ∷ rest ≡ outputs = ground arith in
                subst (Outputs (r ∷ rs)) all (refl, refl, e, k, convert_rows_lem rs w rest q)
          ]
        ]
      ]

  pub convert_rows_still : (rows : List BatchRow) (w : World) → (convert_rows env rows w).1 ≡ w
  unfolding convert_rows machine
  convert_rows_still [] w = refl
  convert_rows_still (r ∷ rs) w =
      let rest = convert_rows_still rs w in
      elim (Option-cases (new_json_str env.is_json (bytes r.res))) [
        | inl e ↦ ground arith
        | inr (res, e) ↦ elim (Option-cases (new_json_str env.is_json (bytes r.messages))) [
          | inl k ↦ ground arith
          | inr (messages, k) ↦ ground arith
        ]
      ]

  after_first : BatchOutput → Result (List BatchOutput) → Result (List BatchOutput)
  after_first o (ok os) = ok (o ∷ os)
  after_first o (err e) = err e

  convert_first :
      (r : BatchRow) (rs : List BatchRow) (res messages : JsonStr) (w : World)
      → new_json_str env.is_json (bytes r.res) ≡ some res
      → new_json_str env.is_json (bytes r.messages) ≡ some messages
      → (convert_rows env (r ∷ rs) w).0
        ≡ after_first
            (record {
              line = r.line;
              status = map_status_enum r.status;
              res = res;
              messages = messages;
            })
            (convert_rows env rs w).0
  unfolding convert_rows after_first machine
  convert_first r rs res messages w e k = elim (Result-cases (convert_rows env rs w).0) [
    | inl (x, q) ↦ ground arith
    | inr (os, q) ↦ ground arith
  ]

  pub convert_rows_same :
      (rows : List BatchRow) (w v : World)
      → (convert_rows env rows w).0 ≡ (convert_rows env rows v).0
  unfolding convert_rows machine
  convert_rows_same [] w v = refl
  convert_rows_same (r ∷ rs) w v = elim (Option-cases (new_json_str env.is_json (bytes r.res))) [
    | inl e ↦ ground arith
    | inr (res, e) ↦ elim (Option-cases (new_json_str env.is_json (bytes r.messages))) [
      | inl k ↦ ground arith
      | inr (messages, k) ↦
          convert_first r rs res messages w e k
          ∙ ap (after_first _) (convert_rows_same rs w v)
          ∙ sym (convert_first r rs res messages v e k)
    ]
  ]
